-- ===== src/Semantic.antt =====
-- compiler/semantic: the checker.
pub mod Failure
pub mod Location
pub mod Checker
pub mod Infer
pub mod Calls
pub mod Shape
pub mod Kips
pub mod Analyze
pub mod Growing
pub mod GrowingExpr
pub mod GrowingStmt
pub mod InRange
pub mod Fresh
pub mod SpendMet
pub mod Accepted
pub mod Tests
