-- ===== src/Ir/LowerProgram.antt =====
-- compiler/ir/src/gen.rs: the lowering of statements, spends and programs. The builder of the
-- application model is another component, and a parameter here.
use kaspa_script.Prelude.{ℕ, String, List, [], ◌∷◌, map}
use kaspa_script.Prelude.Fault.{Result, ok, ◌>>=◌}
use kaspa_script.Syntax.Ast.{Stmt, let_stmt, require, return, Param, Spend, Contract, Program}
use kaspa_script.Ir.Instruction.{Instruction, InstructionKind, Value}
use kaspa_script.Ir.Program.{IrParam, IrSpend, IrContract, IrProgram}
use kaspa_script.Ir.Emit.{IrError, Lowering, emit}
use kaspa_script.Ir.Lower.{lower_expr}

unfoldable pub lower_stmt : Stmt → List Instruction → String → Lowering
lower_stmt (let_stmt name e _) out file = do
  out' ← lower_expr e out file
  emit name.span (InstructionKind.push (Value.symbol name.name)) out'
lower_stmt (require e span) out file = do
  out' ← lower_expr e out file
  emit span InstructionKind.verify out'
lower_stmt (return e _) out file = lower_expr e out file

unfoldable pub lower_stmts : List Stmt → List Instruction → String → Lowering
lower_stmts [] out file = ok out
lower_stmts (s ∷ ss) out file = do out' ← lower_stmt s out file; lower_stmts ss out' file

unfoldable pub ir_param : Param → IrParam
ir_param p = record { name = p.name.name; ty = p.ty }

unfoldable pub lower_spend : Spend → String → Result IrError IrSpend
unfolding lower_stmts ir_param
lower_spend s file = do
  instructions ← lower_stmts s.body [] file
  ok (record { name = s.name.name; params = map ir_param s.params; instructions = instructions })

unfoldable pub lower_spends : List Spend → String → Result IrError (List IrSpend)
lower_spends [] file = ok []
lower_spends (s ∷ ss) file = do
  spend ← lower_spend s file
  spends ← lower_spends ss file
  ok (spend ∷ spends)

unfoldable pub lower_contract : Contract → String → Result IrError IrContract
unfolding lower_spends ir_param
lower_contract c file = do
  spends ← lower_spends c.spends file
  ok (record {
    name = c.name.name;
    params = map ir_param c.params;
    finality_depth = c.finality_depth;
    spends = spends;
  })

unfoldable pub lower_contracts : List Contract → String → Result IrError (List IrContract)
lower_contracts [] file = ok []
lower_contracts (c ∷ cs) file = do
  contract ← lower_contract c file
  contracts ← lower_contracts cs file
  ok (contract ∷ contracts)

unfoldable pub lower_program :
    {A : Type 0} → (Program → A) → Program → List ℕ → String → Result IrError (IrProgram A)
unfolding lower_contracts
lower_program build_application_model program kip_requirements file = do
  contracts ← lower_contracts program.contracts file
  ok (record {
    contracts = contracts;
    kip_requirements = kip_requirements;
    application = build_application_model program;
  })
