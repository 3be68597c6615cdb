-- ===== src/Ir/LowerCall.antt =====
-- compiler/ir/src/gen.rs: the lowering of calls. A helper that lowers parts of its expression is given
-- their lowerings.
use text.Mathlib.Text.{◌==◌ as str_eq}
use kaspa_script.Prelude.{
  ℕ, ◌%◌, ◌^◌, String, List, [], ◌∷◌, ◌++◌, Option, none, some, ltb, ◌==◌, if◌then◌else◌,
}
use kaspa_script.Prelude.Fault.{ok, err, ◌>>=◌}
use kaspa_script.Syntax.Token.{Span}
use kaspa_script.Syntax.Ast.{Expr, Exprs, count, first, second}
use kaspa_script.Ir.Instruction.{InstructionKind, Value, instr}
use kaspa_script.Ir.Emit.{unsupported_at, Lower, emit, u32_literal}

-- The lowerings of `args.first()`, `args.get(n)` and of all arguments.
unfoldable pub lower_first : List Lower → Lower
lower_first [] out file = ok out
lower_first (l ∷ _) out file = l out file

unfoldable pub lower_second : List Lower → Lower
unfolding lower_first
lower_second [] out file = ok out
lower_second (_ ∷ ls) out file = lower_first ls out file

unfoldable pub lower_third : List Lower → Lower
unfolding lower_second
lower_third [] out file = ok out
lower_third (_ ∷ ls) out file = lower_second ls out file

unfoldable pub lower_every : List Lower → Lower
lower_every [] out file = ok out
lower_every (l ∷ ls) out file = do out' ← l out file; lower_every ls out' file

unfoldable pub lower_index_call : Exprs → Span → Lower
unfolding u32_literal
lower_index_call args span out file = do
  index ←
      u32_literal (first args) "input/output index must be an integer literal" "index exceeds u32"
        file span
  emit span (InstructionKind.push (Value.integer index)) out

unfoldable pub integer_u32 : Option Expr → Option ℕ
integer_u32 (some (Expr.integer value _)) = if ltb value (2 ^ 32) then some value else none
integer_u32 _ = none

unfoldable pub output_call_index : Expr → Option ℕ
unfolding integer_u32 count first
output_call_index (Expr.call (Expr.ident root) args _) =
    if str_eq root.name "output"
    then if count args == 1 then integer_u32 (first args) else none
    else none
output_call_index _ = none

unfoldable pub output_index : Option Expr → Option ℕ
unfolding output_call_index
output_index none = none
output_index (some e) = output_call_index e

unfoldable pub lower_successor : Option ℕ → Span → Lower
unfolding unsupported_at
lower_successor (some index) span out file = ok (
    out
    ++ instr span InstructionKind.output_count
      ∷ instr span (InstructionKind.push (Value.integer index))
      ∷ instr span InstructionKind.greater_than
      ∷ [])
lower_successor none span out file =
    err (unsupported_at file span "continuation requires output(index)")

unfoldable pub lower_continuation : Exprs → Span → Lower
unfolding output_index second lower_successor
lower_continuation args span out file = lower_successor (output_index (second args)) span out file

-- `elements.len() as u32` of an array, and 0 of anything else
unfoldable pub key_count : Option Expr → ℕ
unfolding count
key_count (some (Expr.array elements _)) = count elements % 2 ^ 32
key_count _ = 0

unfoldable pub lower_multisig : Exprs → List Lower → Span → Lower
unfolding u32_literal lower_third lower_second key_count first second
lower_multisig args lowerings span out file = do
  required ←
      u32_literal (first args) "multisig k must be an integer literal" "multisig k exceeds u32" file
        span
  signatures ← lower_third lowerings out file
  keys ←
      lower_second lowerings
        (signatures ++ instr span (InstructionKind.push (Value.integer required)) ∷ []) file
  emit span (InstructionKind.check_multi_sig required (key_count (second args))) keys

-- The first argument, then an instruction.
unfoldable pub lower_unary_builtin : InstructionKind → List Lower → Span → Lower
unfolding lower_first
lower_unary_builtin kind lowerings span out file = do
  out' ← lower_first lowerings out file
  emit span kind out'

unfoldable pub lower_plain_call : Lower → List Lower → Lower
unfolding lower_every
lower_plain_call lower_callee lowerings out file = do
  out' ← lower_callee out file
  lower_every lowerings out' file

unfoldable pub lower_builtin : String → Lower → Exprs → List Lower → Span → Lower
unfolding lower_index_call lower_continuation lower_multisig lower_unary_builtin lower_plain_call
lower_builtin name lower_callee args lowerings span out file =
    if str_eq name "input"
    then lower_index_call args span out file
    else if str_eq name "output"
    then lower_index_call args span out file
    else if str_eq name "continuation"
    then lower_continuation args span out file
    else if str_eq name "multisig"
    then lower_multisig args lowerings span out file
    else if str_eq name "zk_verify"
    then lower_unary_builtin InstructionKind.zk_verify_groth16 lowerings span out file
    else if str_eq name "sha256"
    then lower_unary_builtin InstructionKind.sha256 lowerings span out file
    else if str_eq name "blake2b"
    then lower_unary_builtin InstructionKind.blake2b lowerings span out file
    else if str_eq name "hash160"
    then lower_unary_builtin InstructionKind.hash160 lowerings span out file
    else lower_plain_call lower_callee lowerings out file

-- A signature check: the object that `verify` is called on, then the key.
unfoldable pub lower_verify : Lower → List Lower → Span → Lower
unfolding lower_first
lower_verify lower_object lowerings span out file = do
  object_out ← lower_object out file
  key_out ← lower_first lowerings object_out file
  emit span (InstructionKind.check_sig 0) key_out

unfoldable pub lower_call : Expr → Lower → Lower → Exprs → List Lower → Span → Lower
unfolding lower_verify lower_builtin lower_plain_call
lower_call (Expr.field _ f _) lower_callee lower_object args lowerings span out file =
    if str_eq f.name "verify"
    then lower_verify lower_object lowerings span out file
    else lower_plain_call lower_callee lowerings out file
lower_call (Expr.ident i) lower_callee lower_object args lowerings span out file =
    lower_builtin i.name lower_callee args lowerings span out file
lower_call _ lower_callee lower_object args lowerings span out file =
    lower_plain_call lower_callee lowerings out file
