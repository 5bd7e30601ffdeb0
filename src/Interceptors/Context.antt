-- ===== src/Interceptors/Context.antt =====
-- The request and the context that interceptors and handlers see, with the readers of
-- pkg/interceptors/auth.go and request_id.go.
use skillsphere_api.Common.{String, Bool, true, false, Option, none, some}
use skillsphere_api.Errors.{Result, ok, err, message}
use skillsphere_api.World.{Claims}

-- The values that the interceptors put under their keys.
pub record Context : Type 0 where
  pub claims : Option Claims
  pub user_id : Option String
  pub request_id : Option String

abbrev pub background : Context
background = record { claims = none; user_id = none; request_id = none }

-- req.Spec(), req.Header() and req.Peer().
pub record Request : Type 0 where
  pub is_client : Bool
  pub procedure : String
  pub header : String → String
  pub peer : String

unfoldable pub get_claims_from_context : Context → Result Claims
get_claims_from_context ctx = elim ctx.claims [
  | none ↦ err (message "user not found in context")
  | some c ↦ ok c
]

abbrev pub text_or_empty : Option String → String
text_or_empty none = ""
text_or_empty (some s) = s

abbrev pub is_present : Option String → Bool
is_present none = false
is_present (some s) = true

unfoldable pub get_user_id_from_context : Context → String × Bool
get_user_id_from_context ctx = (text_or_empty ctx.user_id, is_present ctx.user_id)

unfoldable pub request_id_from_context : Context → String × Bool
request_id_from_context ctx = (text_or_empty ctx.request_id, is_present ctx.request_id)
