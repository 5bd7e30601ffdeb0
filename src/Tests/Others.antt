-- ===== src/Tests/Others.antt =====
-- The theorems on a second user at concrete inputs.
use skillsphere_api.Common.{◌∷◌, []}
use skillsphere_api.Records.{User, UserSession}
use skillsphere_api.World.{World}
use skillsphere_api.Tests.{world, ann, ann_session}

abbrev cid : User
cid = record ann { id = 3; email = "cid@x"; username = "cid" }

abbrev cid_session : UserSession
cid_session = record ann_session { id = 2; user_id = 3; hashed_refresh_token = "hcid" }

abbrev two_users : World
two_users = record world {
  db = record world.db { users = ann ∷ cid ∷ []; sessions = ann_session ∷ cid_session ∷ [] };
}
