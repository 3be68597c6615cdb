-- ===== src/Ir/Depth.antt =====
-- The stack that a lowered script needs and leaves: what each instruction's opcodes take off the
-- engine's stack and put on it.
pub mod Forms
pub mod Values
pub mod Lowering
pub mod Spends
use kaspa_script.Prelude.{ℕ, suc, ◌+◌, ◌-◌, List, [], ◌∷◌, Option, none, some, ltb, if◌then◌else◌}
use kaspa_script.Ir.Instruction.{Instruction, InstructionKind}

-- Items taken and items put back; `none` for what the backend refuses. An indexed introspection
-- and a lock against a number bring their own operand, and a lock ends by pushing a true.
unfoldable pub effect : InstructionKind → Option (ℕ × ℕ)
effect (InstructionKind.push _) = some (0, 1)
effect InstructionKind.drop = some (1, 0)
effect InstructionKind.dup = some (1, 2)
effect (InstructionKind.input_value _) = some (0, 1)
effect (InstructionKind.input_script _) = some (0, 1)
effect (InstructionKind.output_value _) = some (0, 1)
effect (InstructionKind.output_script _) = some (0, 1)
effect InstructionKind.output_count = some (0, 1)
effect InstructionKind.input_count = some (0, 1)
effect (InstructionKind.check_sig _) = some (2, 1)
effect (InstructionKind.check_multi_sig required keys) = some (required + 1 + keys, 1)
effect (InstructionKind.check_lock_height _) = some (0, 1)
effect (InstructionKind.check_lock_time _) = some (0, 1)
effect InstructionKind.check_lock_height_from_stack = some (1, 1)
effect InstructionKind.check_lock_time_from_stack = some (1, 1)
effect InstructionKind.sha256 = some (1, 1)
effect InstructionKind.blake2b = some (1, 1)
effect InstructionKind.verify = some (1, 0)
effect InstructionKind.equal = some (2, 1)
effect InstructionKind.not_equal = some (2, 1)
effect InstructionKind.less_than = some (2, 1)
effect InstructionKind.less_than_or_equal = some (2, 1)
effect InstructionKind.greater_than = some (2, 1)
effect InstructionKind.greater_than_or_equal = some (2, 1)
effect InstructionKind.and = some (2, 1)
effect InstructionKind.or = some (2, 1)
effect InstructionKind.negation = some (1, 1)
effect InstructionKind.add = some (2, 1)
effect InstructionKind.sub = some (2, 1)
effect _ = none

-- The depth after one instruction, or `none` where it is refused or finds too few items.
unfoldable pub after : Option (ℕ × ℕ) → ℕ → Option ℕ
after none d = none
after (some (taken, put)) d = if ltb d taken then none else some (d - taken + put)

unfoldable pub bind_depth : Option ℕ → (ℕ → Option ℕ) → Option ℕ
bind_depth none f = none
bind_depth (some d) f = f d

-- The depth after a script that starts at depth `d`.
unfoldable pub depth : List Instruction → ℕ → Option ℕ
unfolding effect after bind_depth
depth [] d = some d
depth (i ∷ is) d = bind_depth (after (effect i.kind) d) (depth is)
