-- ===== src/Ir.antt =====
-- The intermediate representation, and the lowering into it.
pub mod Instruction
pub mod Program
pub mod Emit
pub mod LowerCall
pub mod Lower
pub mod LowerProgram
pub mod Depth
mod Tests
