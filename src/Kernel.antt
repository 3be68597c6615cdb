-- ===== src/Kernel.antt =====
-- kernel/src/lib.rs: the readiness of a contract's blueprint and the fee policy.
pub mod Model
pub mod Fees
pub mod Readiness
pub mod Ready
pub mod Tests
