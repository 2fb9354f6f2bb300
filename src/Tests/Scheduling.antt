-- ===== src/Tests/Scheduling.antt =====
-- The scheduler at concrete inputs.
use resticpal.Prelude.{◌+◌, ◌≡◌, ◌↔◌, refl, true, none, some, [], ◌∷◌, arith}
use resticpal.Time.{hours, seconds}
use resticpal.Config.{default_config}
use resticpal.Schedule.{
  resume_catch_up, wake_grace, idle, waiting, start, completion_deadline, next_deadline, trigger,
  grace_block, blockers, decide, SchedulerSnapshot,
}
use resticpal.Schedule.Decision.{decide-start_iff, IsReady}
use resticpal.Tests.Data.{calendar, noon, quiet}

waits_until_the_deadline : decide calendar default_config.schedule quiet ≡ idle (hours 1023)
unfolding decide next_deadline completion_deadline
waits_until_the_deadline = refl

abbrev resumed : SchedulerSnapshot
resumed = record quiet { last_success = none; resumed_at = some noon }

waits_for_the_grace_period :
    decide calendar default_config.schedule resumed
    ≡ waiting resume_catch_up (wake_grace ∷ []) (some (noon + seconds 300))
unfolding decide next_deadline completion_deadline blockers grace_block trigger
waits_for_the_grace_period = refl

abbrev overdue : SchedulerSnapshot
overdue = record quiet { last_success = none; resumed_at = some (hours 999) }

decide-start_iff_example :
    (decide calendar default_config.schedule overdue ≡ start resume_catch_up)
    ↔ (IsReady calendar default_config.schedule overdue × (resume_catch_up ≡ trigger overdue))
decide-start_iff_example =
    decide-start_iff calendar default_config.schedule overdue (omega arith) (omega arith)

starts_when_overdue : decide calendar default_config.schedule overdue ≡ start resume_catch_up
unfolding decide next_deadline completion_deadline blockers grace_block trigger
starts_when_overdue = refl

abbrev asked : SchedulerSnapshot
asked = record quiet { manual_requested = true }

abbrev asked_on_battery : SchedulerSnapshot
asked_on_battery = record resumed {
  manual_requested = true;
  on_battery = true;
  not_before = some (hours 2000);
}
