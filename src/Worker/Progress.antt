-- ===== src/Worker/Progress.antt =====
-- How far the worker gets.
use skillsphere_api.World.{World}
