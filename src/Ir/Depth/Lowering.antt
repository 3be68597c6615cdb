-- ===== src/Ir/Depth/Lowering.antt =====
-- Lowering an expression that has a value leaves one item.
use text.Mathlib.Text.{◌==◌ as str_eq}
use kaspa_script.Prelude.{
  ℕ, suc, ◌+◌, ◌%◌, ◌^◌, ◌<◌, ◌≡◌, ◌⊎◌, inl, inr, refl, sym, String, Bool, true, false, List, [],
  ◌∷◌, ◌++◌, Option, none, some, ltb, ◌&&◌, if◌then◌else◌, arith, Bool-cases,
}
use kaspa_script.Prelude.Fault.{ok, ◌>>=◌, >>=-eq-ok, ok-injective, err-ne-ok}
use kaspa_script.Syntax.Token.{Span}
use kaspa_script.Syntax.Ast.{Expr, Exprs, BinaryOp, count, cons, first, second}
use kaspa_script.Ir.Instruction.{Instruction, InstructionKind, Value, instr}
use kaspa_script.Ir.Emit.{Lower, emit, is_path, u32_literal}
use kaspa_script.Ir.LowerCall.{
  lower_first, lower_every, lower_index_call, lower_successor, lower_continuation, output_index,
  lower_multisig, lower_unary_builtin, lower_builtin, lower_verify, lower_call,
}
use kaspa_script.Ir.Lower.{
  ident_kind, is_greater_equal, binary_kind, lower_lock, lower_binary, transaction_field,
  lower_kind, lower_transaction_field, lower_field, lower_operator, lower_expr, lower_exprs,
}
use kaspa_script.Ir.Depth.{effect, depth, after, bind_depth}
use kaspa_script.Ir.Depth.Forms.{Valued, AllValued}
use kaspa_script.Ir.Depth.Values.{Grows, Leaves, Grows-none, Grows-trans, Grows-emit}

-- One instruction that takes nothing.
Leaves-emit :
    (kind : InstructionKind) (span : Span)
    → effect kind ≡ some (0, 1)
    → Leaves 1 (λ out file. emit span kind out)
Leaves-emit kind span e out file r h = Grows-emit 0 1 kind span out out r e (Grows-none out) h

effect-ident_kind : (name : String) → effect (ident_kind name) ≡ some (0, 1)
unfolding ident_kind effect
effect-ident_kind name = elim (Bool-cases (str_eq name "input_count")) [
  | inl e ↦ rw e
  | inr n ↦ elim (Bool-cases (str_eq name "output_count")) [ inl e ↦ rw (n, e) | inr m ↦ rw (n, m) ]
]

-- `m` steps of a lowering, then an instruction.
pub Leaves-then :
    (n put : ℕ) (l : Lower) (kind : InstructionKind) (span : Span)
    → effect kind ≡ some (n, put)
    → Leaves n l
    → Leaves put (λ out file. l out file >>= λ out'. emit span kind out')
Leaves-then n put l kind span e lv out file r h =
    let (out', p, last) = >>=-eq-ok (l out file) _ h in
    Grows-emit n put kind span out out' r e (lv out file out' p) last

Leaves-both :
    (n m : ℕ) (l k : Lower)
    → Leaves n l
    → Leaves m k
    → Leaves (m + n) (λ out file. l out file >>= λ out'. k out' file)
Leaves-both n m l k lv kv out file r h =
    let (out', p, more) = >>=-eq-ok (l out file) _ h in
    Grows-trans n m out out' r (lv out file out' p) (kv out' file r more)

Leaves-if :
    (n : ℕ) (b : Bool) (l k : Lower)
    → Leaves n l
    → Leaves n k
    → Leaves n (λ out file. if b then l out file else k out file)
Leaves-if n true l k p q = p
Leaves-if n false l k p q = q

lower_lock-Leaves :
    (r : Expr) (l : Lower) (literal : ℕ → InstructionKind) (stack : InstructionKind) (span : Span)
    → ((n : ℕ) → effect (literal n) ≡ some (0, 1))
    → effect stack ≡ some (1, 1)
    → Leaves 1 l
    → Leaves 1 (lower_lock r l literal stack span)
unfolding lower_lock
lower_lock-Leaves (Expr.integer v _) l literal stack span p q lv =
    Leaves-emit (literal v) span (p v)
lower_lock-Leaves _ l literal stack span p q lv = Leaves-then 1 1 l stack span q lv

-- The two locks, or the operator.
lower_binary-Leaves :
    (l : Expr) (ll : Lower) (op : BinaryOp) (r : Expr) (lr : Lower) (span : Span)
    → Leaves 1 lr
    → Leaves 1 (λ out file. ll out file >>= λ a. lr a file >>= λ b. emit span (binary_kind op) b)
    → Leaves 1 (lower_binary l ll op r lr span)
unfolding lower_binary effect
lower_binary-Leaves l ll op r lr span right plain =
    Leaves-if 1 (is_greater_equal op && is_path l ("block" ∷ "height" ∷ [])) _ _
      (lower_lock-Leaves r lr _ _ span (λ n. refl) refl right)
      (Leaves-if 1 (is_greater_equal op && is_path l ("block" ∷ "time" ∷ [])) _ _
        (lower_lock-Leaves r lr _ _ span (λ n. refl) refl right) plain)

-- A lock against the height or the time, whatever the left side lowers to.
lock-Leaves :
    (l : Expr) (ll : Lower) (r : Expr) (lr : Lower) (span : Span)
    → (is_path l ("block" ∷ "height" ∷ []) ≡ true) ⊎ (is_path l ("block" ∷ "time" ∷ []) ≡ true)
    → Leaves 1 lr
    → Leaves 1 (lower_binary l ll BinaryOp.greater_equal r lr span)
unfolding lower_binary effect
lock-Leaves l ll r lr span (inl e) right =
    rw e (lower_lock-Leaves r lr _ _ span (λ n. refl) refl right)
lock-Leaves l ll r lr span (inr e) right = elim (Bool-cases (is_path l ("block" ∷ "height" ∷ []))) [
  | inl height ↦ rw height (lower_lock-Leaves r lr _ _ span (λ n. refl) refl right)
  | inr other ↦ rw (other, e) (lower_lock-Leaves r lr _ _ span (λ n. refl) refl right)
]

-- Both operands, then an operator that takes two.
operator-Leaves :
    (ll lr : Lower) (kind : InstructionKind) (span : Span)
    → effect kind ≡ some (2, 1)
    → Leaves 1 ll
    → Leaves 1 lr
    → Leaves 1 (λ out file. ll out file >>= λ a. lr a file >>= λ b. emit span kind b)
operator-Leaves ll lr kind span e p q out file r h =
    let (a, ea, h₁) = >>=-eq-ok (ll out file) _ h in
    let (b, eb, last) = >>=-eq-ok (lr a file) _ h₁ in
    Grows-emit 2 1 kind span out b r e (Grows-trans 1 1 out a b (p out file a ea) (q a file b eb))
      last

-- A number in range, then an instruction that pushes it.
literal-Leaves :
    (arg : Option Expr) (m₁ m₂ : String) (span : Span)
    → Leaves 1 (λ out file. u32_literal arg m₁ m₂ file span >>= λ n.
        emit span (InstructionKind.push (Value.integer n)) out)
unfolding effect
literal-Leaves arg m₁ m₂ span out file r h =
    let (n, e, last) = >>=-eq-ok (u32_literal arg m₁ m₂ file span) _ h in
    Leaves-emit (InstructionKind.push (Value.integer n)) span refl out file r last

lower_successor-Leaves : (o : Option ℕ) (span : Span) → Leaves 1 (lower_successor o span)
unfolding lower_successor depth effect after bind_depth
lower_successor-Leaves none span out file r h = absurd (err-ne-ok h)
lower_successor-Leaves (some n) span out file r h = (_, sym (ok-injective h), λ d. ground arith)

transaction_kind-Leaves :
    (b : Bool) (name : String) (n : ℕ) (span : Span)
    → (name ≡ "value") ⊎ (name ≡ "script")
    → Leaves 1 (lower_kind (transaction_field b name n) span)
unfolding lower_kind transaction_field effect
transaction_kind-Leaves true name n span (inl e) =
    rw e (Leaves-emit (InstructionKind.input_value n) span refl)
transaction_kind-Leaves false name n span (inl e) =
    rw e (Leaves-emit (InstructionKind.output_value n) span refl)
transaction_kind-Leaves true name n span (inr e) =
    rw e (Leaves-emit (InstructionKind.input_script n) span refl)
transaction_kind-Leaves false name n span (inr e) =
    rw e (Leaves-emit (InstructionKind.output_script n) span refl)

lower_transaction_field-Leaves :
    (b : Bool) (args : Exprs) (name : String) (span : Span)
    → (name ≡ "value") ⊎ (name ≡ "script")
    → Leaves 1 (lower_transaction_field b args name span)
unfolding lower_transaction_field
lower_transaction_field-Leaves b args name span e out file r h =
    let (n, _, last) =
      >>=-eq-ok
        (u32_literal (first args) "input/output index must be integer" "index exceeds u32" file
          span)
        _ h in
    transaction_kind-Leaves b name n span e out file r last

-- Signatures, the threshold, the keys, and the check that takes them all.
check_multi_sig-Leaves :
    (k n : ℕ) (ls lk : Lower) (span : Span)
    → Leaves k ls
    → Leaves n lk
    → Leaves 1 (λ out file. ls out file >>= λ s.
        lk (s ++ instr span (InstructionKind.push (Value.integer k)) ∷ []) file >>= λ t.
        emit span (InstructionKind.check_multi_sig k n) t)
unfolding effect
check_multi_sig-Leaves k n ls lk span ps pk out file r h =
    let (s, e, h₁) = >>=-eq-ok (ls out file) _ h in
    let push_k = instr span (InstructionKind.push (Value.integer k)) ∷ [] in
    let (t, e', last) = >>=-eq-ok (lk (s ++ push_k) file) _ h₁ in
    let threshold : Grows 1 s (s ++ push_k) =
      Leaves-emit (InstructionKind.push (Value.integer k)) span refl s file (s ++ push_k) refl in
    let order : n + (1 + k) ≡ k + 1 + n = omega arith in
    let all_items =
      Grows-trans (1 + k) n out (s ++ push_k) t
        (Grows-trans k 1 out s (s ++ push_k) (ps out file s e) threshold)
        (pk (s ++ push_k) file t e') in
    Grows-emit (k + 1 + n) 1 (InstructionKind.check_multi_sig k n) span out t r refl
      (rw order at all_items) last

lower_multisig-Leaves :
    (k : ℕ) (a b : Span) (keys : Exprs) (third : Expr) (more : Exprs) (l₁ lk ls : Lower)
    (rest : List Lower) (span : Span)
    → count keys < 2 ^ 32
    → Leaves (count keys) lk
    → Leaves k ls
    → Leaves 1 (
        lower_multisig
          (cons (Expr.integer k a) (cons (Expr.array keys b) (cons third more)))
          (l₁ ∷ lk ∷ ls ∷ rest)
          span)
unfolding lower_multisig u32_literal
lower_multisig-Leaves k a b keys third more l₁ lk ls rest span small pk ps out file r h =
    let whole : count keys % 2 ^ 32 ≡ count keys = omega arith in
    elim (Bool-cases (ltb k (2 ^ 32))) [
      | inl fits ↦
          check_multi_sig-Leaves k (count keys) ls lk span ps pk out file r (rw (fits, whole) at h)
      | inr large ↦ absurd (err-ne-ok (rw large at h))
    ]

mutual
  unfolding lower_expr lower_call lower_builtin lower_verify lower_index_call lower_continuation
      lower_unary_builtin lower_first lower_operator lower_field effect count

  lower_expr-Leaves : {e : Expr} → Valued e → Leaves 1 (lower_expr e)
  lower_expr-Leaves (Valued.ident i) =
      Leaves-emit (ident_kind i.name) i.span (effect-ident_kind i.name)
  lower_expr-Leaves (Valued.integer n s) = Leaves-emit _ s refl
  lower_expr-Leaves (Valued.string t s) = Leaves-emit _ s refl
  lower_expr-Leaves (Valued.bool b s) = Leaves-emit _ s refl
  lower_expr-Leaves (Valued.negation {e} s v) =
      Leaves-then 1 1 (lower_expr e) InstructionKind.negation s refl (lower_expr-Leaves v)
  lower_expr-Leaves (Valued.operator {l} {r} op s e v w) =
      lower_binary-Leaves l (lower_expr l) op r (lower_expr r) s (lower_expr-Leaves w) (
        operator-Leaves (lower_expr l) (lower_expr r) (binary_kind op) s e (lower_expr-Leaves v)
          (lower_expr-Leaves w))
  lower_expr-Leaves (Valued.lock {l} {r} s e w) =
      lock-Leaves l (lower_expr l) r (lower_expr r) s e (lower_expr-Leaves w)
  lower_expr-Leaves (Valued.verify {o} {key} f t more s e v w) = rw e (
      operator-Leaves (lower_expr o) (lower_expr key) (InstructionKind.check_sig 0) s refl
        (lower_expr-Leaves v) (lower_expr-Leaves w))
  lower_expr-Leaves (Valued.digest {e} i more s (inl n) v) =
      rw n (Leaves-then 1 1 (lower_expr e) InstructionKind.sha256 s refl (lower_expr-Leaves v))
  lower_expr-Leaves (Valued.digest {e} i more s (inr n) v) =
      rw n (Leaves-then 1 1 (lower_expr e) InstructionKind.blake2b s refl (lower_expr-Leaves v))
  lower_expr-Leaves (Valued.index i args s (inl n)) = rw n (literal-Leaves (first args) _ _ s)
  lower_expr-Leaves (Valued.index i args s (inr n)) = rw n (literal-Leaves (first args) _ _ s)
  lower_expr-Leaves (Valued.continuation i args s n) =
      rw n (lower_successor-Leaves (output_index (second args)) s)
  lower_expr-Leaves (Valued.multisig {keys} {signatures} i a b c more s n small pk ps) = rw n (
      lower_multisig-Leaves (count signatures) a b keys (Expr.array signatures c) more
        (lower_expr (Expr.integer (count signatures) a)) _ _ (lower_exprs more) s small
        (lower_exprs-Leaves pk) (lower_exprs-Leaves ps))
  lower_expr-Leaves (Valued.transaction_field root args t f s (inl n) e) =
      rw n (lower_transaction_field-Leaves true args f.name s e)
  lower_expr-Leaves (Valued.transaction_field root args t f s (inr n) e) =
      rw n (lower_transaction_field-Leaves false args f.name s e)

  lower_exprs-Leaves :
      {es : Exprs} → AllValued es → Leaves (count es) (lower_every (lower_exprs es))
  lower_exprs-Leaves AllValued.none out file r h = rw (← ok-injective h) (Grows-none out)
  lower_exprs-Leaves (AllValued.also {e} {es} v vs) out file r h =
      let (out', p, more) = >>=-eq-ok (lower_expr e out file) _ h in
      let order : suc (count es) ≡ count es + 1 = omega arith in
      rw order (
        Grows-trans 1 (count es) out out' r (lower_expr-Leaves v out file out' p)
          (lower_exprs-Leaves vs out' file r more))

-- Where a `Valued` expression is lowered, instructions are only appended, and from any depth these find
-- their operands and leave one item more.
pub lower_expr-Grows :
    {e : Expr}
    → Valued e
    → (out : List Instruction) (file : String) (r : List Instruction) → lower_expr e out file ≡ ok r
    → Grows 1 out r
lower_expr-Grows = lower_expr-Leaves
