-- ===== src/Schedule/Deadline.antt =====
-- Where the next deadline of crates/resticpal-core/src/schedule.rs can lie.
use resticpal.Prelude.{ℕ, ◌+◌, ◌≤◌, ◌≡◌, min, Option, none, some, arith}
use resticpal.Time.{DateTime, Chrono, hours, checked_cases}
use resticpal.Schedule.{completion_deadline}

module _ (chrono : Chrono) where
  -- Whatever completion time was recorded, the deadline is at most one interval from now.
  pub completion_deadline-le :
      (last : Option DateTime) (now : DateTime) (h : ℕ)
      → completion_deadline chrono last now h ≤ now + hours h
  unfolding completion_deadline
  completion_deadline-le none now h = omega arith
  completion_deadline-le (some c) now h = ground (arith, checked_cases chrono (min c now) (hours h))

  -- A completion that is not in the future is followed by a full interval.
  pub completion_deadline_exact :
      (completed now : DateTime) (h : ℕ)
      → completed ≤ now
      → completed + hours h ≤ chrono.max_utc
      → completion_deadline chrono (some completed) now h ≡ completed + hours h
  unfolding completion_deadline
  completion_deadline_exact completed now h past fits =
      ground (arith, checked_cases chrono (min completed now) (hours h))
