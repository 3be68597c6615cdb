-- ===== src/Ir/Tests.antt =====
-- The lowering of a small contract.
use kaspa_script.Prelude.{◌+◌, ◌≡◌, ◌↔◌, refl, String, true, [], ◌∷◌, some, inl, All}
use kaspa_script.Prelude.Fault.{Result, ok, err}
use kaspa_script.Syntax.Token.{Span, TypeName}
use kaspa_script.Syntax.Ast.{Ident, Expr, BinaryOp, let_stmt, require, Spend, nil, cons}
use kaspa_script.Ir.Instruction.{InstructionKind, instr}
use kaspa_script.Ir.Program.{IrSpend}
use kaspa_script.Ir.Emit.{is_path}
use kaspa_script.Ir.Lower.{lower_expr}
use kaspa_script.Ir.Lower.Path.{BlockHeight, of_root, lower_expr-iff-BlockHeight}
use kaspa_script.Ir.LowerProgram.{lower_stmt, lower_spend}
use kaspa_script.Ir.Depth.{depth}
use kaspa_script.Ir.Depth.Forms.{Valued}
use kaspa_script.Ir.Depth.Values.{Grows}
use kaspa_script.Ir.Depth.Lowering.{lower_expr-Grows}
use kaspa_script.Ir.Depth.Spends.{left_by_all, ValuedStmt, depth-lower_spend}

abbrev here : Span
here = record { start = 0; end = 0 }

abbrev named : String → Ident
named name = record { name = name; span = here }

-- `input(0).value`
abbrev input_value : Expr
input_value =
    Expr.field (Expr.call (Expr.ident (named "input")) (cons (Expr.integer 0 here) nil) here)
      (named "value") here

-- `sig.verify(owner)`
abbrev signed : Expr
signed =
    Expr.call (Expr.field (Expr.ident (named "sig")) (named "verify") here)
      (cons (Expr.ident (named "owner")) nil) here

-- `block.height >= 100`
abbrev locked : Expr
locked =
    Expr.binary (Expr.field (Expr.ident (named "block")) (named "height") here)
      BinaryOp.greater_equal (Expr.integer 100 here) here

abbrev unlock : Spend
unlock = record {
  name = named "unlock";
  params = record { name = named "sig"; ty = TypeName.signature; span = here } ∷ [];
  body = let_stmt (named "paid") input_value here ∷ require signed here ∷ require locked here ∷ [];
  span = here;
}

abbrev value_or : {E A : Type 0} → Result E A → A → A
value_or (ok a) b = a
value_or (err e) b = b

abbrev lowered : IrSpend
lowered =
    value_or (lower_spend unlock "vault.ks") (record { name = ""; params = []; instructions = [] })

lowers : lower_spend unlock "vault.ks" ≡ ok lowered
unfolding lower_spend lower_stmt lower_expr
lowers = refl

block_path :
    is_path
      (Expr.field (Expr.ident (named "block")) (named "height") here)
      ("block" ∷ "height" ∷ [])
    ≡ true
unfolding is_path
block_path = refl

abbrev input-Valued : Valued input_value
input-Valued =
    Valued.transaction_field (named "input") (cons (Expr.integer 0 here) nil) here (named "value")
      here (inl refl) (inl refl)

unlock-Valued : All ValuedStmt unlock.body
unlock-Valued = (
  input-Valued,
  (
    Valued.verify (named "verify") here nil here refl (Valued.ident (named "sig"))
        (Valued.ident (named "owner")),
    (Valued.lock here (inl block_path) (Valued.integer 100 here), tt),
  ),
)

depth-lower_spend_example : depth lowered.instructions 3 ≡ some (left_by_all unlock.body + 3)
depth-lower_spend_example = depth-lower_spend unlock "vault.ks" lowers unlock-Valued 3

signed_code :
    lower_expr input_value [] "vault.ks" ≡ ok (instr here (InstructionKind.input_value 0) ∷ [])
unfolding lower_expr
signed_code = refl

lower_expr-Grows_example : Grows 1 [] (instr here (InstructionKind.input_value 0) ∷ [])
lower_expr-Grows_example = lower_expr-Grows input-Valued [] "vault.ks" _ signed_code

-- `sig.verify(owner).block.height`
abbrev signed_height : Expr
signed_height = Expr.field (Expr.field signed (named "block") here) (named "height") here

signed_height-BlockHeight : BlockHeight signed_height
signed_height-BlockHeight = of_root refl refl refl

lower_expr-iff-BlockHeight_example :
    (lower_expr
        (Expr.binary signed_height BinaryOp.greater_equal (Expr.integer 100 here) here)
        []
        "vault.ks"
      ≡ ok (instr here (InstructionKind.check_lock_height 100) ∷ []))
    ↔ BlockHeight signed_height
lower_expr-iff-BlockHeight_example =
    lower_expr-iff-BlockHeight signed_height 100 here here [] "vault.ks"
