-- ===== src/Ir/Emit.antt =====
-- compiler/ir/src/gen.rs: what the lowering functions share: errors, the output, paths and literals.
use text.Mathlib.Text.{◌==◌ as str_eq}
use kaspa_script.Prelude.{
  ℕ, ◌+◌, ◌^◌, String, Bool, true, false, List, [], ◌∷◌, ◌++◌, Option, some, ltb, ◌&&◌,
  if◌then◌else◌,
}
use kaspa_script.Prelude.Fault.{Result, ok, err}
use kaspa_script.Syntax.Token.{Span}
use kaspa_script.Syntax.Ast.{Expr}
use kaspa_script.Ir.Instruction.{Instruction, InstructionKind, instr}
use kaspa_script.Semantic.Failure.{AnalyzeFailure}

pub data IrError : Type 0 where
  semantic : AnalyzeFailure → IrError
  unsupported : String → ℕ → ℕ → String → IrError

-- The error always reports line 1, and the byte offset as the column.
unfoldable pub unsupported_at : String → Span → String → IrError
unsupported_at file span message = unsupported file 1 (span.start + 1) message

abbrev pub Lowering : Type 0
Lowering = Result IrError (List Instruction)

-- A lowering, given the output so far and the file's name.
abbrev pub Lower : Type 0
Lower = List Instruction → String → Lowering

abbrev pub emit : Span → InstructionKind → List Instruction → Lowering
emit span kind out = ok (out ++ instr span kind ∷ [])

unfoldable pub collect_path : Expr → List String
collect_path (Expr.ident i) = i.name ∷ []
collect_path (Expr.field object f _) = collect_path object ++ f.name ∷ []
collect_path _ = []

unfoldable pub path_eq : List String → List String → Bool
path_eq [] [] = true
path_eq (s ∷ ss) (t ∷ ts) = str_eq s t && path_eq ss ts
path_eq _ _ = false

unfoldable pub is_path : Expr → List String → Bool
unfolding collect_path path_eq
is_path e expected = path_eq (collect_path e) expected

-- `u32::try_from` on an integer literal, with an error for anything else.
unfoldable pub u32_literal : Option Expr → String → String → String → Span → Result IrError ℕ
unfolding unsupported_at
u32_literal (some (Expr.integer value _)) not_literal too_large file span =
    if ltb value (2 ^ 32) then ok value else err (unsupported_at file span too_large)
u32_literal _ not_literal too_large file span = err (unsupported_at file span not_literal)
