-- ===== src/Pipeline.antt =====
-- compiler/parser, compiler/semantic, compiler/ir, compiler/codegen: from a source file to an artifact.
pub mod Files
pub mod Compiled
mod Tests
