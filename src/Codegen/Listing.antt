-- ===== src/Codegen/Listing.antt =====
-- The listing of compiled code: what the disassembler shows of what the encoder wrote.
pub mod Entries
pub mod Chunks
pub mod Pushes
pub mod Values
pub mod Program
