-- ===== src/Ir/Depth/Values.antt =====
-- An expression with a value leaves one item on the stack.
use mathlib.Core.List.{append_assoc, append-nil}
use mathlib.Core.Path.{fun_ext}
use kaspa_script.Prelude.{
  ℕ, ◌+◌, ◌≡◌, refl, sym, ap, ◌∙◌, String, List, [], ◌∷◌, ◌++◌, Option, none, some, arith,
}
use kaspa_script.Prelude.Fault.{Result, ok, ok-injective}
use kaspa_script.Syntax.Token.{Span}
use kaspa_script.Ir.Instruction.{Instruction, InstructionKind, instr}
use kaspa_script.Ir.Emit.{IrError, Lower}
use kaspa_script.Ir.Depth.{effect, after, bind_depth, depth}

-- What was appended raises the depth by `n`, from any depth.
abbrev pub Grows : ℕ → List Instruction → List Instruction → Type 0
Grows n out r =
    (code : List Instruction) × (r ≡ out ++ code) × ((d : ℕ) → depth code d ≡ some (n + d))

-- A lowering that succeeds leaves `n` items more.
abbrev pub Leaves : ℕ → Lower → Type 0
Leaves n l =
    (out : List Instruction) (file : String) (r : List Instruction)
    → l out file ≡ ok r
    → Grows n out r

bind_depth_assoc :
    (o : Option ℕ) (f g : ℕ → Option ℕ)
    → bind_depth (bind_depth o f) g ≡ bind_depth o (λ d. bind_depth (f d) g)
unfolding bind_depth
bind_depth_assoc none f g = refl
bind_depth_assoc (some d) f g = refl

depth-append :
    (c c' : List Instruction) (d : ℕ) → depth (c ++ c') d ≡ bind_depth (depth c d) (depth c')
unfolding depth bind_depth
depth-append [] c' d = refl
depth-append (i ∷ is) c' d =
    ap (bind_depth (after (effect i.kind) d)) (fun_ext (depth-append is c'))
    ∙ sym (bind_depth_assoc (after (effect i.kind) d) (depth is) (depth c'))

pub Grows-none : (out : List Instruction) → Grows 0 out out
unfolding depth
Grows-none out = ([], sym (append-nil out), λ d. ap some (omega arith))

pub Grows-trans :
    (n m : ℕ) (a b c : List Instruction) → Grows n a b → Grows m b c → Grows (m + n) a c
unfolding bind_depth
Grows-trans n m a b c (x, p, h) (y, q, k) = (
  x ++ y,
  q ∙ ap (λ z. z ++ y) p ∙ append_assoc a x y,
  λ d. depth-append x y d ∙ (rw (h d, k (n + d)) (ap some (omega arith))),
)

after-enough : (taken put d : ℕ) → after (some (taken, put)) (taken + d) ≡ some (put + d)
unfolding after
after-enough taken put d = ground arith

-- An instruction that finds its operands.
pub Grows-emit :
    (taken put : ℕ) (kind : InstructionKind) (span : Span) (out r r' : List Instruction)
    → effect kind ≡ some (taken, put)
    → Grows taken out r
    → ◌≡◌ {A = Result IrError (List Instruction)} (ok (r ++ instr span kind ∷ [])) (ok r')
    → Grows put out r'
unfolding depth bind_depth
Grows-emit taken put kind span out r r' e (x, p, h) last =
    let i = instr span kind ∷ [] in
    (
      x ++ i,
      sym (ok-injective last) ∙ ap (λ z. z ++ i) p ∙ append_assoc out x i,
      λ d. depth-append x i d ∙ (rw (h d, e, after-enough taken put d)),
    )
