-- ===== src/Ir/Lower.antt =====
-- compiler/ir/src/gen.rs: the lowering of expressions. The output vector is passed in and returned.
-- A helper that lowers parts of its expression is given their lowerings.
pub mod Path
use text.Mathlib.Text.{◌==◌ as str_eq}
use kaspa_script.Prelude.{
  ℕ, suc, ◌+◌, ◌%◌, ◌^◌, String, Bool, true, false, List, [], ◌∷◌, ◌++◌, Option, none, some, ltb,
  ◌==◌, ◌&&◌, ◌||◌, if◌then◌else◌,
}
use kaspa_script.Prelude.Fault.{Result, ok, err, ◌>>=◌}
use kaspa_script.Syntax.Token.{Span}
use kaspa_script.Syntax.Ast.{Ident, Expr, Exprs, BinaryOp, UnaryOp, count, first, second, nil, cons}
use kaspa_script.Ir.Instruction.{Instruction, InstructionKind, Value, instr}
use kaspa_script.Semantic.Failure.{AnalyzeFailure}
use kaspa_script.Ir.Emit.{
  IrError, unsupported_at, Lowering, Lower, emit, collect_path, path_eq, is_path, u32_literal,
}
use kaspa_script.Ir.LowerCall.{
  lower_first, lower_second, lower_third, lower_every, lower_index_call, integer_u32,
  output_call_index, output_index, lower_successor, lower_continuation, key_count, lower_multisig,
  lower_unary_builtin, lower_plain_call, lower_builtin, lower_verify, lower_call,
}

unfoldable pub ident_kind : String → InstructionKind
ident_kind name =
    if str_eq name "input_count"
    then InstructionKind.input_count
    else if str_eq name "output_count"
    then InstructionKind.output_count
    else InstructionKind.push (Value.symbol name)

unfoldable pub binary_kind : BinaryOp → InstructionKind
binary_kind BinaryOp.or = InstructionKind.or
binary_kind BinaryOp.and = InstructionKind.and
binary_kind BinaryOp.equal = InstructionKind.equal
binary_kind BinaryOp.not_equal = InstructionKind.not_equal
binary_kind BinaryOp.greater = InstructionKind.greater_than
binary_kind BinaryOp.greater_equal = InstructionKind.greater_than_or_equal
binary_kind BinaryOp.less = InstructionKind.less_than
binary_kind BinaryOp.less_equal = InstructionKind.less_than_or_equal
binary_kind BinaryOp.add = InstructionKind.add
binary_kind BinaryOp.sub = InstructionKind.sub
binary_kind BinaryOp.mul = InstructionKind.mul
binary_kind BinaryOp.div = InstructionKind.div
binary_kind BinaryOp.modulo = InstructionKind.modulo

unfoldable pub is_greater_equal : BinaryOp → Bool
is_greater_equal BinaryOp.greater_equal = true
is_greater_equal _ = false

-- A lock against a literal, or against what the right side leaves on the stack.
unfoldable pub lower_lock : Expr → Lower → (ℕ → InstructionKind) → InstructionKind → Span → Lower
lower_lock (Expr.integer value _) lower_right literal from_stack span out file =
    emit span (literal value) out
lower_lock _ lower_right literal from_stack span out file = do
  out' ← lower_right out file
  emit span from_stack out'

-- The chain of `lower_binary`, with the tests of `lower_special_binary` in front.
unfoldable pub lower_binary : Expr → Lower → BinaryOp → Expr → Lower → Span → Lower
unfolding is_greater_equal is_path lower_lock binary_kind
lower_binary left lower_left op right lower_right span out file =
    if is_greater_equal op && is_path left ("block" ∷ "height" ∷ [])
    then lower_lock right lower_right InstructionKind.check_lock_height
        InstructionKind.check_lock_height_from_stack span out file
    else if is_greater_equal op && is_path left ("block" ∷ "time" ∷ [])
    then lower_lock right lower_right InstructionKind.check_lock_time
        InstructionKind.check_lock_time_from_stack span out file
    else (do
      left_out ← lower_left out file
      both_out ← lower_right left_out file
      emit span (binary_kind op) both_out)

-- The match on `(root.name, field)`, for a root that is `input` or `output`.
unfoldable pub transaction_field : Bool → String → ℕ → Option InstructionKind
transaction_field is_input name index =
    if str_eq name "value"
    then some
        (if is_input then InstructionKind.input_value index else InstructionKind.output_value index)
    else if str_eq name "script"
    then some (
        if is_input
        then InstructionKind.input_script index
        else InstructionKind.output_script index)
    else if str_eq name "covenant_id"
    then some InstructionKind.covenant_id
    else none

unfoldable pub lower_kind : Option InstructionKind → Span → Lower
unfolding unsupported_at
lower_kind (some kind) span out file = emit span kind out
lower_kind none span out file = err (unsupported_at file span "unsupported input/output field")

unfoldable pub lower_transaction_field : Bool → Exprs → String → Span → Lower
unfolding u32_literal transaction_field lower_kind first
lower_transaction_field is_input args name span out file = do
  index ←
      u32_literal (first args) "input/output index must be integer" "index exceeds u32" file span
  lower_kind (transaction_field is_input name index) span out file

-- A field of anything but `input(i)` and `output(i)`.
unfoldable pub lower_other_field : Expr → Lower → String → Span → Lower
unfolding is_path
lower_other_field object lower_object name span out file =
    if is_path object ("covenant_id" ∷ []) && str_eq name "depth"
    then emit span InstructionKind.covenant_depth out
    else if is_path object ("sequencing" ∷ [])
    then emit span InstructionKind.sequencing_commitment out
    else (do
      out' ← lower_object out file
      emit span (InstructionKind.push (Value.symbol name)) out')

unfoldable pub lower_field : Expr → Lower → String → Span → Lower
unfolding lower_transaction_field lower_other_field
lower_field (Expr.call (Expr.ident root) args s) lower_object name span out file =
    if str_eq root.name "input"
    then lower_transaction_field true args name span out file
    else if str_eq root.name "output"
    then lower_transaction_field false args name span out file
    else lower_other_field (Expr.call (Expr.ident root) args s) lower_object name span out file
lower_field object lower_object name span out file =
    lower_other_field object lower_object name span out file

unfoldable pub lower_operator : UnaryOp → Span → Lower
unfolding unsupported_at
lower_operator UnaryOp.negation span out file = emit span InstructionKind.negation out
lower_operator UnaryOp.negate span out file =
    err (unsupported_at file span "numeric negation is not supported in V1")

unfoldable mutual
  unfolding ident_kind lower_every lower_operator lower_binary lower_call lower_field

  pub lower_expr : Expr → List Instruction → String → Lowering
  lower_expr (Expr.ident i) out file = emit i.span (ident_kind i.name) out
  lower_expr (Expr.integer value span) out file =
      emit span (InstructionKind.push (Value.integer value)) out
  lower_expr (Expr.string value span) out file =
      emit span (InstructionKind.push (Value.string value)) out
  lower_expr (Expr.bool value span) out file =
      emit span (InstructionKind.push (Value.bool value)) out
  lower_expr (Expr.array elements _) out file = lower_every (lower_exprs elements) out file
  lower_expr (Expr.unary op e span) out file = do
    out' ← lower_expr e out file
    lower_operator op span out' file
  lower_expr (Expr.binary left op right span) out file =
      lower_binary left (lower_expr left) op right (lower_expr right) span out file
  lower_expr (Expr.call callee args span) out file =
      lower_call callee (lower_expr callee) (lower_object callee) args (lower_exprs args) span out
        file
  lower_expr (Expr.field object f span) out file =
      lower_field object (lower_expr object) f.name span out file

  -- The lowerings of a list's elements.
  pub lower_exprs : Exprs → List Lower
  lower_exprs nil = []
  lower_exprs (cons e es) = (λ out file. lower_expr e out file) ∷ lower_exprs es

  -- The lowering of the object of a field.
  pub lower_object : Expr → List Instruction → String → Lowering
  lower_object (Expr.field object _ _) out file = lower_expr object out file
  lower_object _ out file = ok out
