-- ===== src/Time.antt =====
-- Instants and durations. `DateTime<Utc>` and `Duration` belong to the chrono package, so the model
-- takes what the code uses of it as a record: instants and durations are counted in nanoseconds,
-- instants from chrono's earliest one, and `max_utc` is the latest instant it can represent.
use native.Mathlib.Decide.{dec_lt}
use resticpal.Prelude.{ℕ, ◌+◌, ◌*◌, ◌≤◌, ◌<◌, ◌≡◌, ◌⊎◌, inl, inr, Option, none, some, arith}

abbrev pub DateTime : Type 0
DateTime = ℕ

abbrev pub Duration : Type 0
Duration = ℕ

abbrev pub seconds : ℕ → Duration
seconds n = n * 1_000_000_000

abbrev pub minutes : ℕ → Duration
minutes n = seconds (n * 60)

abbrev pub hours : ℕ → Duration
hours n = seconds (n * 3600)

abbrev pub days : ℕ → Duration
days n = seconds (n * 86400)

-- `checked_add_signed` answers `None` exactly when the sum is not representable. `add` is the
-- operator `+`, which panics there; nothing is assumed of its value outside the range.
pub record Chrono : Type 0 where
  pub max_utc : DateTime
  pub checked_add_signed : DateTime → Duration → Option DateTime
  pub add : DateTime → Duration → DateTime
  pub checked_within :
      (t : DateTime) (d : Duration) → t + d ≤ max_utc → checked_add_signed t d ≡ some (t + d)
  pub checked_beyond :
      (t : DateTime) (d : Duration) → max_utc < t + d → checked_add_signed t d ≡ none
  pub add_within : (t : DateTime) (d : Duration) → t + d ≤ max_utc → add t d ≡ t + d

pub checked_cases :
    (chrono : Chrono) (t : DateTime) (d : Duration)
    → (chrono.checked_add_signed t d ≡ some (t + d)) × (t + d ≤ chrono.max_utc)
      ⊎ (chrono.checked_add_signed t d ≡ none) × (chrono.max_utc < t + d)
checked_cases chrono t d = elim (dec_lt chrono.max_utc (t + d)) [
  | yes beyond ↦ inr (chrono.checked_beyond t d beyond, beyond)
  | no within ↦ inl (chrono.checked_within t d (omega arith), omega arith)
]
