-- ===== src/Ir/Depth/Spends.antt =====
-- The stack that a whole spend leaves.
use kaspa_script.Prelude.{ℕ, ◌+◌, ◌≡◌, refl, sym, ap, String, List, [], ◌∷◌, some, All}
use kaspa_script.Prelude.Fault.{ok, >>=-eq-ok, ok-injective}
use kaspa_script.Syntax.Ast.{Stmt, let_stmt, require, return, Spend}
use kaspa_script.Ir.Instruction.{InstructionKind, Value}
use kaspa_script.Ir.Program.{IrSpend}
use kaspa_script.Ir.Lower.{lower_expr}
use kaspa_script.Ir.LowerProgram.{lower_stmt, lower_stmts, lower_spend}
use kaspa_script.Ir.Depth.{effect, depth}
use kaspa_script.Ir.Depth.Forms.{Valued}
use kaspa_script.Ir.Depth.Values.{Leaves, Grows-none, Grows-trans, Grows-emit}
use kaspa_script.Ir.Depth.Lowering.{lower_expr-Grows, Leaves-then}

-- What a statement leaves: a `let` its value and its name, a `return` its value.
unfoldable pub left_by : Stmt → ℕ
left_by (let_stmt _ _ _) = 2
left_by (require _ _) = 0
left_by (return _ _) = 1

unfoldable pub left_by_all : List Stmt → ℕ
unfolding left_by
left_by_all [] = 0
left_by_all (s ∷ ss) = left_by_all ss + left_by s

abbrev pub ValuedStmt : Stmt → Type 0
ValuedStmt (let_stmt _ e _) = Valued e
ValuedStmt (require e _) = Valued e
ValuedStmt (return e _) = Valued e

lower_stmt-Leaves : (s : Stmt) → ValuedStmt s → Leaves (left_by s) (lower_stmt s)
unfolding lower_stmt left_by effect
lower_stmt-Leaves (let_stmt name e _) v out file r h =
    let (out', p, last) = >>=-eq-ok (lower_expr e out file) _ h in
    let named =
      Grows-emit 0 1 (InstructionKind.push (Value.symbol name.name)) name.span out' out' r refl
        (Grows-none out') last in
    Grows-trans 1 1 out out' r (lower_expr-Grows v out file out' p) named
lower_stmt-Leaves (require e span) v out file r h =
    Leaves-then 1 0 (lower_expr e) InstructionKind.verify span refl (lower_expr-Grows v) out file r
      h
lower_stmt-Leaves (return e _) v out file r h = lower_expr-Grows v out file r h

lower_stmts-Leaves : (ss : List Stmt) → All ValuedStmt ss → Leaves (left_by_all ss) (lower_stmts ss)
unfolding lower_stmts left_by_all
lower_stmts-Leaves [] vs out file r h = rw (← ok-injective h) (Grows-none out)
lower_stmts-Leaves (s ∷ ss) vs out file r h =
    let (out', p, more) = >>=-eq-ok (lower_stmt s out file) _ h in
    Grows-trans (left_by s) (left_by_all ss) out out' r (lower_stmt-Leaves s vs.0 out file out' p)
      (lower_stmts-Leaves ss vs.1 out' file r more)

module _ (s : Spend) (file : String) {spend : IrSpend}
    (lowered : lower_spend s file ≡ ok spend) where
  -- Where a spend is lowered, and the expression of each statement is `Valued`, its instructions find
  -- their operands at every step, from any depth, and leave two items more for each `let` and one for
  -- each `return`.
  pub depth-lower_spend :
      All ValuedStmt s.body → (d : ℕ) → depth spend.instructions d ≡ some (left_by_all s.body + d)
  unfolding lower_spend
  depth-lower_spend vs d =
      let (code, e, last) = >>=-eq-ok (lower_stmts s.body [] file) _ lowered in
      let same : spend.instructions ≡ code =
        sym (ap (λ (x : IrSpend). x.instructions) (ok-injective last)) in
      let (c, p, h) = lower_stmts-Leaves s.body vs [] file code e in rw (same, p) (h d)
