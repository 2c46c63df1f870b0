-- ===== src/Tests.antt =====
-- Runs of the program under the sample system, and the theorems at concrete inputs.
mod Data
mod Runs
mod Sequences
mod Handlers
mod Availability
mod Tables
mod Servers
mod Visits
mod Errors
mod Concurrency
mod Logs
mod Program
