-- ===== src/Lib.antt =====
-- A verification library for resticpal, a Windows service that runs scheduled restic backups. It
-- models the core of the service in Rust: how a configuration is resolved and validated, when a
-- backup is due, how the state of the service changes with every call, how restic is run, and how managed
-- policies are taken over. C#, scripts and the tray are not modelled.
--
-- The parts, and the code that they follow:
-- - Prelude: lists, results, Boolean tests and text helpers that the other modules share.
-- - Text: what the code uses of `str`, over code points, among it `trim`'s white space and byte lengths.
-- - Time: instants and durations. `Chrono` is an interface: the operations of the chrono package with
--   the laws that its documentation gives (sums are exact where they are representable).
-- - Schedule (crates/resticpal-core/src/schedule.rs): `completion_deadline` and `decide`. Its children
--   hold the bounds on deadlines and what each decision means.
-- - Config (crates/resticpal-core/src/config.rs): the layers and the effective configuration, and
--   `EffectiveConfig::validate` in Config/Validate; Config/Bounds states what it admits. A path carries
--   its text, whether it is absolute and its components, as Rust's standard library parses them.
--   Config/Management is `LocalManagementConfig::validate`, over what the url package parses (`Urls`).
-- - Policy (crates/resticpal-core/src/policy.rs): managed policies, `resolve_config` in Policy/Resolve
--   and `locked_fields`. Policy/Layers and Policy/Precedence say, field by field, which layer wins.
--   The map of resolutions is a function from fields, of which there are eighteen.
-- - Restic (crates/resticpal-core/src/restic.rs): the operations, and which a repository mode allows.
--   Restic/Builder is the command builder, Restic/Paths its comparison of Windows paths; its children say
--   by following the parts of paths which lie in a directory, and compare that with the code. Lower-casing
--   and the printing of numbers and characters, of Rust's standard library, are arguments (`Texts`).
--   Restic/Sources is `validate_backup_source_paths` of apps/resticpal-service/src/executor.rs, over
--   what Windows says of drives and aliases (`FileSystem`).
-- - Service (apps/resticpal-service/src): `RuntimeState` of runtime/state.rs, and the data that it
--   holds, of crates/resticpal-core/src/status.rs, crates/resticpal-protocol/src/lib.rs and state.rs.
--   Service/Snapshot is state.rs; Service/Status is runtime/helpers.rs and the start of the service in
--   runtime/state.rs; Service/Network and Service/Scheduler are runtime/scheduler.rs; Service/Lifecycle
--   and Service/Retention are runtime/lifecycle.rs; Service/Requests, Service/Operation and
--   Service/Update are the requests of runtime/ipc.rs that start, stop, defer or hold work.
-- - Service/Effect: what a call asks of the world (stores, channel, log), as a list in order, and
--   `Env`, how the world answers: clock readings, whether a save succeeds, whether the channel is open.
-- - Service/Steps: the calls as a step relation on `RuntimeState`. Service/Steps/Exclusive,
--   Evaluation, Reachable and Persistence hold the invariant and what follows from it, Deferral and
--   Pruning what many calls, one after the other, leave of a wait and of the time of the last prune.
-- - Runtime (apps/resticpal-service/src/runtime): `ServiceRuntime` of state.rs, the state together with
--   the configuration in force and its local layer. Runtime/Settings, Sources, Secrets and Repository
--   are the requests of ipc.rs that change the configuration; Runtime/Policies and Runtime/Enrollment
--   are enrollment.rs. Runtime/Views is what the service shows of its configuration.
--   Runtime/Guarded and Runtime/Outcomes split on what a change comes to, and Runtime/Coherent, Kept
--   and Restart relate the configuration to what a restart resolves. Runtime/Steps is the step relation
--   with changes of the configuration, with its invariants in its children.
-- - EventLoop (apps/resticpal-service/src/main.rs): one turn of `run_event_loop` as a function of the
--   event, and in EventLoop/Turns the loop with its channel and its workers as a step relation.
--   EventLoop/Outside, Orderly and Answered say what each step does to the work that is under way.
--   EventLoop/Refresh is `management_refresh_delay`.
-- - Executor (apps/resticpal-service/src/executor.rs): Executor/Process is one restic process, from its
--   start to its outcome, over what it meets (`Process`); Executor/Output reads its output, and
--   Executor/Runs puts processes together to backups, retentions and repository operations. Executor
--   itself holds `BackupFailureDetails` and `is_safe_backup_failed_item` of
--   crates/resticpal-core/src/status.rs. Executor/Honest, Success, Lines, Broken, Details and Shown say what
--   outcomes stand for, how output is read, and what an outcome names.
-- - Frames (crates/resticpal-protocol/src/lib.rs): `write_frame` and `read_frame`.
-- - Management (crates/resticpal-core/src/management.rs): Management/Bootstrap, Enrollment and Manifest
--   are the readers of links, enrollments and manifests, over the packages for JSON, base64, URLs and
--   cryptography (`Json`, `Signatures`, `Ciphers`, `Fragments`); Management/Admitted and Enrolled say
--   what they admit. Management/Cache and Client are apps/resticpal-service/src/management.rs, over a
--   `World` with the server and the clock, and Management/Worker is the management thread of
--   apps/resticpal-service/src/main.rs. Management/Forward, Kept and Restarts say what stays in force.
-- - Tests: the theorems at concrete inputs, and runs on inputs of the source's own tests.
--
-- How the parts meet: the service loads a configuration (Policy), starts in the state that the
-- saved snapshot stands for (Service/Status), and then takes calls one at a time, as they change
-- the state under one lock (RunBackupNow takes it twice, and a change of the configuration asks about
-- updates before it takes it for the change; what comes between is not modelled. An unenrollment lets
-- it go between its test and its change, and is taken apart there). A call that evaluates the schedule
-- asks `decide` and applies the decision; the calls that end a run set the times that `decide` reads
-- the next time. The requests that change the configuration put it into force for all of these.
--
-- Bounds: counters and lengths are natural numbers, with the source's limits written out
-- (`saturating_add` on a `u32`, `i64::MAX` for a grace period). An instant counts nanoseconds from
-- chrono's earliest one. Durations are exact: the constructors of chrono panic beyond `i64::MAX`
-- milliseconds, which only a grace period far above the validated bound of a day can reach. One
-- definition uses fuel, the reader of restic's output; it gets the number of bytes, and a theorem says
-- that this is enough. Every other recursion is on lists, texts and numbers. The wait for a process is
-- over the looks at it; where none of them ends it, the run has no outcome. The one read of a list that could
-- fail, of the first blocker, gives no result where it does.
--
-- Not modelled: locks and threads (interleavings of calls are sequences of steps), the end of the event
-- loop, the environment and the job object of the restic process, the sending of requests to servers,
-- the wiping of secrets from memory, files (what they hold and whether they can be written are
-- arguments), the history database, update downloads, named pipes, and messages for people. Whether an
-- update package is valid is an argument of the request that installs it.
pub mod Prelude
pub mod Text
pub mod Time
pub mod Schedule
pub mod Config
pub mod Policy
pub mod Restic
pub mod Service
pub mod Runtime
pub mod EventLoop
pub mod Frames
pub mod Executor
pub mod Management
pub mod Tests
