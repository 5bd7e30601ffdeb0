-- ===== src/Database/Waiting.antt =====
-- The attempts of WaitForDB.
use skillsphere_api.Common.{
  ◌+◌, ◌≤◌, ℕ, zero, suc, Bool, false, not, is_some, ◌||◌, ◌≡◌, arith, Option-cases, inl, inr, ltb,
  if◌then◌else◌, refl, ◌*◌,
}
use skillsphere_api.Database.{Driver, Process, wait_for_db, attempts_from, sleep, default_retries}

-- The process after an attempt that failed.
abbrev next : ℕ → Process → Process
next attempt p =
    sleep (if ltb attempt default_retries then attempt * 200 * 1000000 else 0)
      (record p { pings = suc p.pings })

module _ (driver : Driver) where
  -- One of so many pings from a number on is answered.
  abbrev pub answers_within : ℕ → ℕ → Bool
  answers_within zero from = false
  answers_within (suc n) from = not (is_some (driver.ping from)) || answers_within n (suc from)

  ready-answers :
      (left attempt : ℕ) (p : Process)
      → (attempts_from driver left attempt p).0 ≡ answers_within left p.pings
  unfolding attempts_from
  ready-answers zero attempt p = refl
  ready-answers (suc left) attempt p = elim (Option-cases (driver.ping p.pings)) [
    | inl answered ↦ rw answered refl
    | inr (e, failed) ↦ rw failed (ready-answers left (suc attempt) (next attempt p))
  ]

  pings-le :
      (left attempt : ℕ) (p : Process)
      → (attempts_from driver left attempt p).1.pings ≤ p.pings + left
  unfolding attempts_from
  pings-le zero attempt p = ground arith
  pings-le (suc left) attempt p = ground (arith, pings-le left (suc attempt) (next attempt p))

-- WaitForDB returns after at most 5 pings and at most 2 seconds of sleep, from whatever the
-- process has done before. It returns true exactly where one of its 5 pings is answered.
pub wait_for_db-bounds :
    (driver : Driver) (p : Process)
    → let (ready, q) = wait_for_db driver p in
      (q.pings ≤ p.pings + 5)
      × (q.slept ≤ p.slept + 2000000000)
      × (ready ≡ answers_within driver 5 p.pings)
unfolding wait_for_db attempts_from
wait_for_db-bounds driver p = (pings-le driver 5 1 p, ground arith, ready-answers driver 5 1 p)
