-- ===== src/Tests.antt =====
-- Runs of the definitions on concrete values.
mod Values
mod Plans
mod Checks
mod Limits
mod Threads
mod Turns
mod Reports
mod Keys
pub mod Evidence
mod Evaluation
mod Flights
