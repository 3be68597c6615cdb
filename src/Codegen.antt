-- ===== src/Codegen.antt =====
-- compiler/codegen: the script backend.
pub mod Target
pub mod Grounding
pub mod Opcode
pub mod Push
pub mod Encode
pub mod Disassemble
pub mod Listing
pub mod Number
pub mod Compile
pub mod Support
mod Tests
