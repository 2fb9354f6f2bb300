-- ===== src/Tests.antt =====
-- The theorems at concrete inputs, and runs of the model on inputs that the source's own tests use.
mod Data
mod Scheduling
mod Policies
mod Runtime
mod Updates
mod Invocations
mod Retention
mod Deferral
mod Configuration
mod Requests
mod Unenrollment
mod Loop
mod Framing
mod Managed
mod Processes
