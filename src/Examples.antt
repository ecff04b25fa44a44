-- ===== src/Examples.antt =====
-- Tests, and the theorems at concrete inputs.
mod Scheduling
mod Data
mod Service
mod Scheduler
mod PrStatus
mod Caffeinate
mod Runner
mod Store
mod Retention
mod Claude
mod Accounts
mod Usage
mod Recovery
mod Ble
mod Server
