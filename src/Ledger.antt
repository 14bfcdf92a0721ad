-- ===== src/Ledger.antt =====
-- src/gateway/attempt.rs: the spend ledger of `LocalAttemptRates`, the part of its state that counts
-- money. Times are seconds since the epoch, money is in nanodollars. Each operation runs under the
-- lock of the state, so it is one step.
pub mod State
pub mod Expiry
pub mod Usage
pub mod Settlement
pub mod Admission
pub mod Coverage
pub mod Calls
pub mod Outcomes
pub mod Endings
