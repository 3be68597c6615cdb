-- ===== src/Application.antt =====
-- compiler/model, compiler/ir/src/application.rs: the application model of a program.
pub mod Model
pub mod Assurances
pub mod Display
pub mod Normalize
pub mod Shape
pub mod Successors
pub mod Signing
pub mod Build
pub mod Ordered
pub mod Path
pub mod Lookup
pub mod Continuation
pub mod Letters
pub mod Exact
pub mod Bounded
mod Tests
