-- ===== src/Ir/Lower/Path.antt =====
-- compiler/ir/src/gen.rs: which comparisons are lowered to a lock on the block height alone.
use text.Mathlib.Text.{◌==◌ as str_eq}
use text.Mathlib.TextEquality.{eq_iff}
use kaspa_script.Prelude.{
  ℕ, ◌≡◌, ◌≢◌, ◌↔◌, refl, sym, ◌∙◌, String, Bool, true, false, List, [], ◌∷◌, ◌++◌, ap, Option,
  none, some, Bool-cases, inl, inr,
}
use kaspa_script.Prelude.Fault.{ok, ok-injective, >>=-eq-ok}
use kaspa_script.Syntax.Token.{Span}
use kaspa_script.Syntax.Ast.{Ident, Expr, BinaryOp}
use kaspa_script.Ir.Instruction.{Instruction, InstructionKind, instr}
use kaspa_script.Ir.Emit.{Lowering, collect_path, is_path, path_eq}
use kaspa_script.Ir.Lower.{is_greater_equal, lower_lock, lower_binary, binary_kind, lower_expr}

-- A name, or a field of some expression.
abbrev pub is_named : Expr → Bool
is_named (Expr.ident _) = true
is_named (Expr.field _ _ _) = true
is_named _ = false

-- `block.height`, or `root.block.height` for a root that is neither a name nor a field.
pub data BlockHeight : Expr → Type 0 where
  of_name :
      {block height : Ident} {s : Span}
      → block.name ≡ "block"
      → height.name ≡ "height"
      → BlockHeight (Expr.field (Expr.ident block) height s)
  of_root :
      {root : Expr} {block height : Ident} {s t : Span}
      → is_named root ≡ false
      → block.name ≡ "block"
      → height.name ≡ "height"
      → BlockHeight (Expr.field (Expr.field root block s) height t)

path_eq_sound : (ss ts : List String) → path_eq ss ts ≡ true → ss ≡ ts
unfolding path_eq
path_eq_sound [] [] h = refl
path_eq_sound [] (t ∷ ts) h = cc
path_eq_sound (s ∷ ss) [] h = cc
path_eq_sound (s ∷ ss) (t ∷ ts) h = elim (Bool-cases (str_eq s t)) [
  | inl same ↦
      let head : s ≡ t = (eq_iff s t).0 same in
      let tail : ss ≡ ts = path_eq_sound ss ts (rw same at h) in rw (head, tail) refl
  | inr differ ↦ absurd (cc (rw differ at h))
]

snoc_none : (xs : List String) (x : String) → (xs ++ x ∷ []) ≢ []
snoc_none [] x h = cc
snoc_none (y ∷ xs) x h = cc

-- A path that ends in a name, of one name or two.
snoc_one : (xs : List String) (x a : String) → (xs ++ x ∷ []) ≡ a ∷ [] → (xs ≡ []) × (x ≡ a)
snoc_one [] x a h = (refl, cc)
snoc_one (y ∷ []) x a h = cc
snoc_one (y ∷ z ∷ xs) x a h = cc

snoc_two :
    (xs : List String) (x a b : String) → (xs ++ x ∷ []) ≡ a ∷ b ∷ [] → (xs ≡ a ∷ []) × (x ≡ b)
snoc_two [] x a b h = cc
snoc_two (y ∷ []) x a b h = (cc, cc)
snoc_two (y ∷ z ∷ []) x a b h = cc
snoc_two (y ∷ z ∷ w ∷ xs) x a b h = cc

collect_path-none : (e : Expr) → collect_path e ≡ [] → is_named e ≡ false
unfolding collect_path
collect_path-none (Expr.ident i) h = cc
collect_path-none (Expr.field object f s) h = absurd (snoc_none (collect_path object) f.name h)
collect_path-none _ h = refl

collect_path-of_unnamed : (e : Expr) → is_named e ≡ false → collect_path e ≡ []
unfolding collect_path
collect_path-of_unnamed (Expr.ident i) h = cc
collect_path-of_unnamed (Expr.field object f s) h = cc
collect_path-of_unnamed _ h = refl

-- An expression has the path `block.height` exactly where it is one of the two forms.
path-BlockHeight : (e : Expr) → collect_path e ≡ "block" ∷ "height" ∷ [] → BlockHeight e
unfolding collect_path
path-BlockHeight (Expr.field (Expr.ident block) height s) h =
    let (first, last) = snoc_two (block.name ∷ []) height.name "block" "height" h in
    of_name (cc first) last
path-BlockHeight (Expr.field (Expr.field root block s) height t) h =
    let (first, last) = snoc_two (collect_path root ++ block.name ∷ []) height.name _ _ h in
    let (empty, named) = snoc_one (collect_path root) block.name "block" first in
    of_root (collect_path-none root empty) named last
path-BlockHeight _ h = cc

BlockHeight-path : {e : Expr} → BlockHeight e → is_path e ("block" ∷ "height" ∷ []) ≡ true
unfolding is_path collect_path path_eq
BlockHeight-path (of_name b h) = rw (b, h) refl
BlockHeight-path (of_root {root} r b h) = rw (collect_path-of_unnamed root r, b, h) refl

-- The kind of the last instruction.
abbrev last_kind : List Instruction → Option InstructionKind
last_kind [] = none
last_kind (i ∷ []) = some i.kind
last_kind (i ∷ j ∷ rest) = last_kind (j ∷ rest)

last_kind-append :
    (xs : List Instruction) (i : Instruction) → last_kind (xs ++ i ∷ []) ≡ some i.kind
last_kind-append [] i = refl
last_kind-append (x ∷ []) i = refl
last_kind-append (x ∷ y ∷ xs) i = last_kind-append (y ∷ xs) i

same_kind :
    (xs ys : List Instruction) (i j : Instruction) (file : String)
    → ◌≡◌ {A = Lowering} (ok (xs ++ i ∷ [])) (ok (ys ++ j ∷ []))
    → i.kind ≡ j.kind
same_kind xs ys i j file h =
    let e : some i.kind ≡ some j.kind =
      sym (last_kind-append xs i) ∙ ap last_kind (ok-injective h) ∙ last_kind-append ys j in
    cc e

-- What the comparison lowers to.
abbrev compared : Expr → ℕ → Span → Span → Expr
compared left n u v = Expr.binary left BinaryOp.greater_equal (Expr.integer n u) v

lock-BlockHeight :
    (left : Expr) (n : ℕ) (u v : Span) (out : List Instruction) (file : String)
    → lower_expr (compared left n u v) out file
      ≡ ok (out ++ instr v (InstructionKind.check_lock_height n) ∷ [])
    → BlockHeight left
unfolding lower_expr lower_binary is_greater_equal is_path lower_lock binary_kind
lock-BlockHeight left n u v out file h =
    elim (Bool-cases (path_eq (collect_path left) ("block" ∷ "height" ∷ []))) [
      | inl height ↦ path-BlockHeight left (path_eq_sound _ _ height)
      | inr other ↦ elim (Bool-cases (path_eq (collect_path left) ("block" ∷ "time" ∷ []))) [
        | inl time ↦ absurd (cc (same_kind out out _ _ file (rw (other, time) at h)))
        | inr plain ↦
            let (left_out, _, more) =
              >>=-eq-ok (lower_expr left out file) _ (rw (other, plain) at h) in
            absurd (cc (same_kind _ out _ _ file more))
      ]
    ]

-- A comparison with `>=` to a literal is lowered to the lock on the block height alone exactly where its
-- left side is `block.height`, or `root.block.height` for a `root` that is neither a name nor a field:
-- what such a `root` computes is dropped.
pub lower_expr-iff-BlockHeight :
    (left : Expr) (n : ℕ) (u v : Span) (out : List Instruction) (file : String)
    → (lower_expr (compared left n u v) out file
        ≡ ok (out ++ instr v (InstructionKind.check_lock_height n) ∷ []))
      ↔ BlockHeight left
unfolding lower_expr lower_binary is_greater_equal lower_lock
lower_expr-iff-BlockHeight left n u v out file =
    (lock-BlockHeight left n u v out file, λ h. rw (BlockHeight-path h) refl)
