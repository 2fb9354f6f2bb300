-- ===== src/Service/Lifecycle/Backoff.antt =====
-- How `finish_backup_at` of apps/resticpal-service/src/runtime/lifecycle.rs and `defer_backup` of
-- runtime/ipc.rs hold the scheduler back.
use mathlib.Core.List.{Memᴰ, foldl}
use resticpal.Prelude.{
  ℕ, zero, suc, ◌+◌, ◌-◌, ◌*◌, ◌^◌, min, ◌≤◌, ◌<◌, Bool, true, false, none, some, List, [], ◌∷◌,
  length, String, ◌≡◌, ◌≢◌, refl, arith, ◌∙◌, Option-cases, inl, inr, ◌++◌, if◌then◌else◌,
}
use resticpal.Time.{DateTime, Chrono, minutes, hours}
use resticpal.Config.{EffectiveConfig}
use resticpal.Schedule.Deadline.{completion_deadline_exact}
use resticpal.Service.{RuntimeState, ScheduleAction, ServiceStateSnapshot}
use resticpal.Service.Scheduler.{SystemConditions, evaluate_schedule}
use resticpal.Service.Steps.Deferral.{Undisturbed, Undisturbed-IsPutOff, put_off-none}
use resticpal.Service.Effect.{Env, Effect, save_state, save_effects}
use resticpal.Service.Lifecycle.{
  BackupOutcome, is_success, count_failure, u32_max, retry_minutes, finished, finish_backup_at,
  failed_outcome,
}

doubled : (k : ℕ) → k ≤ 6 → (5 ≤ 5 * 2 ^ k) × (5 * 2 ^ k ≤ 320)
doubled zero h = omega arith
doubled (suc zero) h = omega arith
doubled (suc (suc zero)) h = omega arith
doubled (suc (suc (suc zero))) h = omega arith
doubled (suc (suc (suc (suc zero)))) h = omega arith
doubled (suc (suc (suc (suc (suc zero))))) h = omega arith
doubled (suc (suc (suc (suc (suc (suc zero)))))) h = omega arith
doubled (suc (suc (suc (suc (suc (suc (suc k))))))) h = absurd (omega arith)

-- The wait before a retry is five minutes after the first failure, and doubles with each further one
-- until it reaches 320 minutes, where it stays.
pub retry_minutes_growth :
    (n : ℕ)
    → (retry_minutes 0 ≡ 5)
      × (retry_minutes 1 ≡ 5)
      × (retry_minutes (suc (suc n)) ≡ min (2 * retry_minutes (suc n)) 320)
unfolding retry_minutes
retry_minutes_growth n = (refl, refl, doubling n)
  where
    doubling : (m : ℕ) → 5 * 2 ^ min (suc (suc m) - 1) 6 ≡ min (2 * (5 * 2 ^ min (suc m - 1) 6)) 320
    doubling zero = refl
    doubling (suc zero) = refl
    doubling (suc (suc zero)) = refl
    doubling (suc (suc (suc zero))) = refl
    doubling (suc (suc (suc (suc zero)))) = refl
    doubling (suc (suc (suc (suc (suc zero))))) = refl
    doubling (suc (suc (suc (suc (suc (suc k)))))) =
        let capped : min (suc (suc (suc (suc (suc (suc (suc (suc k))))))) - 1) 6 ≡ 6 =
          omega arith in
        let capped' : min (suc (suc (suc (suc (suc (suc (suc k)))))) - 1) 6 ≡ 6 = omega arith in
        rw (capped, capped') refl

pub retry_minutes_bounds : (n : ℕ) → (5 ≤ retry_minutes n) × (retry_minutes n ≤ 320)
unfolding retry_minutes
retry_minutes_bounds n = doubled (min (n - 1) 6) (omega arith)

mem-saved_alone :
    (end : Effect) (env : Env) (snapshot : ServiceStateSnapshot)
    → env.state_store ≢ none
    → Memᴰ (save_state snapshot) (save_effects env snapshot ++ end ∷ [])
mem-saved_alone end env snapshot stored = elim (Option-cases env.state_store) [
  | inl e ↦ absurd (stored e)
  | inr (b, e) ↦ rw e (Memᴰ.head refl)
]

-- Where there is a store, the save is among the effects.
mem-saved :
    (run end : Effect) (history : Bool) (env : Env) (snapshot : ServiceStateSnapshot)
    → env.state_store ≢ none
    → Memᴰ
        (save_state snapshot)
        ((if history then run ∷ [] else []) ++ (save_effects env snapshot ++ end ∷ []))
mem-saved run end true env snapshot stored = Memᴰ.tail (mem-saved_alone end env snapshot stored)
mem-saved run end false env snapshot stored = mem-saved_alone end env snapshot stored

module _ (chrono : Chrono) (config : EffectiveConfig) where
  -- What an unsuccessful end leaves: the retry time, in the state and as the next deadline.
  finished_failed :
      (state : RuntimeState) (outcome : BackupOutcome) (now : DateTime)
      → is_success outcome.kind ≡ false
      → now + minutes 320 ≤ chrono.max_utc
      → let wait =
          minutes (retry_minutes (count_failure outcome.kind state.consecutive_failures)) in
        ((finished chrono config state outcome now).not_before ≡ some (now + wait))
        × ((finished chrono config state outcome now).manual_requested ≡ state.manual_requested)
  unfolding finished
  finished_failed state outcome now f fits =
      let failures = count_failure outcome.kind state.consecutive_failures in
      let within =
        chrono.add_within now (minutes (retry_minutes failures))
          (omega (arith, (retry_minutes_bounds failures).1)) in
      (rw (f, within) refl, rw f refl)

  -- After a backup that did not succeed, and while none is asked for, no evaluation within the retry
  -- wait starts another, however many evaluations there are and whatever else is asked of the service
  -- under the same configuration, a deferral and the report of another end of a backup excepted. The
  -- longest such wait, 320 minutes, must be representable.
  pub finished_backoff :
      (state next state' : RuntimeState) (outcome : BackupOutcome) (conditions : SystemConditions)
      (now later : DateTime) (action : ScheduleAction)
      → let until =
          now + minutes (retry_minutes (count_failure outcome.kind state.consecutive_failures)) in
        is_success outcome.kind ≡ false
        → state.manual_requested ≡ false
        → now + minutes 320 ≤ chrono.max_utc
        → Undisturbed chrono config until (finished chrono config state outcome now) next
        → later < until
        → evaluate_schedule chrono config conditions next later ≡ some (state', action)
        → action ≡ ScheduleAction.none
  finished_backoff state next state' outcome conditions now later action f m fits between l h =
      let (time, manual) = finished_failed state outcome now f fits in
      let until =
        now + minutes (retry_minutes (count_failure outcome.kind state.consecutive_failures)) in
      put_off-none chrono config until conditions next state' later action
        (Undisturbed-IsPutOff chrono config until between (inr (manual ∙ m, time))) l h

  -- A success is recorded at once, in the status and in the snapshot, which is handed to the store
  -- if there is one; the failures and the retry time are forgotten, and the next deadline is one
  -- interval away, where that is representable.
  pub finish_backup_at-success :
      (env : Env) (state : RuntimeState) (outcome : BackupOutcome) (now : DateTime)
      → is_success outcome.kind ≡ true
      → env.state_store ≢ none
      → now + hours config.schedule.interval_hours ≤ chrono.max_utc
      → let (state', effects) = finish_backup_at chrono config env state outcome now in
        (state'.status.last_success ≡ some now)
        × (state'.service_state.last_success ≡ some now)
        × (state'.consecutive_failures ≡ 0)
        × (state'.not_before ≡ none)
        × (state'.status.next_deadline ≡ some (now + hours config.schedule.interval_hours))
        × Memᴰ (save_state state'.service_state) effects
  unfolding finish_backup_at finished
  finish_backup_at-success env state outcome now ok stored fits =
      let deadline =
        completion_deadline_exact chrono now now config.schedule.interval_hours (omega arith)
          fits in
      (
        rw ok refl,
        rw ok refl,
        rw ok refl,
        rw ok refl,
        rw ok (rw deadline refl),
        rw ok (mem-saved _ _ env.history_store env _ stored),
      )

  -- Failures that follow one another are counted one by one, from a count that is a `u32` on, up to
  -- the largest `u32`.
  pub failures_counted :
      (state : RuntimeState) (runs : List (String × DateTime))
      → state.consecutive_failures ≤ u32_max
      → (foldl
          (λ s run. finished chrono config s (failed_outcome run.0) run.1)
          state
          runs).consecutive_failures
        ≡ min (state.consecutive_failures + length runs) u32_max
  unfolding finished failed_outcome
  failures_counted state [] b = omega arith
  failures_counted state ((code, now) ∷ runs) b = omega (
    arith,
    failures_counted (finished chrono config state (failed_outcome code) now) runs (omega arith),
  )
