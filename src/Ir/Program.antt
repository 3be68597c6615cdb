-- ===== src/Ir/Program.antt =====
-- compiler/ir/src/gen.rs: the lowered program. The application model that goes with it is another
-- component's data, which this one only carries: its type `A` is a parameter.
use kaspa_script.Prelude.{ℕ, String, List, Option}
use kaspa_script.Syntax.Token.{TypeName}
use kaspa_script.Ir.Instruction.{Instruction}

pub record IrParam : Type 0 where
  pub name : String
  pub ty : TypeName

pub record IrSpend : Type 0 where
  pub name : String
  pub params : List IrParam
  pub instructions : List Instruction

pub record IrContract : Type 0 where
  pub name : String
  pub params : List IrParam
  pub finality_depth : Option ℕ
  pub spends : List IrSpend

pub record IrProgram (A : Type 0) : Type 0 where
  pub contracts : List IrContract
  pub kip_requirements : List ℕ
  pub application : A
