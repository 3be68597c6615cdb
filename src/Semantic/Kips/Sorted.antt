-- ===== src/Semantic/Kips/Sorted.antt =====
-- compiler/semantic/src/checker.rs: the list of KIPs that an analysis reports.
use kaspa_script.Prelude.{
  ℕ, ◌<◌, ◌≡◌, inl, inr, refl, String, Bool, true, false, List, [], ◌∷◌, All, leb, ◌==◌, leb-false,
  Bool-cases, arith, if◌then◌else◌,
}
use kaspa_script.Syntax.Ast.{Expr, Exprs, nil, cons, Stmt, Spend, Contract, Program}
use kaspa_script.Semantic.Kips.{
  stmt_expr, has_kip, insert_kip, ident_kips, field_kips, collect_expr_kips, collect_exprs_kips,
  collect_stmts_kips, collect_spends_kips, collect_contracts_kips, insert_sorted, sort,
  collect_kip_requirements,
}

-- The KIPs that the language has builtins for.
abbrev pub known_kips : List ℕ
known_kips = 10 ∷ 15 ∷ 16 ∷ 20 ∷ []

-- No number twice, and only known ones.
Collects : List ℕ → Type 0
Collects [] = Unit
Collects (k ∷ ks) = (has_kip k ks ≡ false) × (has_kip k known_kips ≡ true) × Collects ks

-- Each number is above the one before it.
abbrev pub Ascending : List ℕ → Type 0
Ascending [] = Unit
Ascending (k ∷ ks) = All (λ j. k < j) ks × Ascending ks

insert_kip-Collects :
    (k : ℕ) (ks : List ℕ) → has_kip k known_kips ≡ true → Collects ks → Collects (insert_kip k ks)
unfolding insert_kip Collects
insert_kip-Collects k ks known h = elim (Bool-cases (has_kip k ks)) [
  | inl there ↦ rw there h
  | inr new ↦ rw new (new, known, h)
]

Collects-if :
    (b : Bool) (xs ys : List ℕ) → Collects xs → Collects ys → Collects (if b then xs else ys)
Collects-if true xs ys h k = h
Collects-if false xs ys h k = k

ident_kips-Collects : (name : String) (ks : List ℕ) → Collects ks → Collects (ident_kips name ks)
unfolding ident_kips has_kip
ident_kips-Collects name ks h = Collects-if _ _ _ (insert_kip-Collects 10 ks refl h) (
    Collects-if _ _ _ (insert_kip-Collects 20 ks refl h) (
      Collects-if _ _ _ (insert_kip-Collects 16 ks refl h)
        (Collects-if _ _ _ (insert_kip-Collects 15 ks refl h) h)))

field_kips-Collects : (name : String) (ks : List ℕ) → Collects ks → Collects (field_kips name ks)
unfolding field_kips has_kip
field_kips-Collects name ks h = Collects-if _ _ _ (insert_kip-Collects 20 ks refl h) h

mutual
  unfolding collect_expr_kips

  expr-Collects : (e : Expr) (ks : List ℕ) → Collects ks → Collects (collect_expr_kips e ks)
  expr-Collects (Expr.ident i) ks h = ident_kips-Collects i.name ks h
  expr-Collects (Expr.integer _ _) ks h = h
  expr-Collects (Expr.string _ _) ks h = h
  expr-Collects (Expr.bool _ _) ks h = h
  expr-Collects (Expr.array es _) ks h = exprs-Collects es ks h
  expr-Collects (Expr.unary _ e _) ks h = expr-Collects e ks h
  expr-Collects (Expr.binary l _ r _) ks h =
      expr-Collects r (collect_expr_kips l ks) (expr-Collects l ks h)
  expr-Collects (Expr.call callee args _) ks h =
      exprs-Collects args (collect_expr_kips callee ks) (expr-Collects callee ks h)
  expr-Collects (Expr.field o f _) ks h =
      expr-Collects o (field_kips f.name ks) (field_kips-Collects f.name ks h)

  exprs-Collects : (es : Exprs) (ks : List ℕ) → Collects ks → Collects (collect_exprs_kips es ks)
  exprs-Collects nil ks h = h
  exprs-Collects (cons e es) ks h =
      exprs-Collects es (collect_expr_kips e ks) (expr-Collects e ks h)

stmts-Collects : (ss : List Stmt) (ks : List ℕ) → Collects ks → Collects (collect_stmts_kips ss ks)
unfolding collect_stmts_kips
stmts-Collects [] ks h = h
stmts-Collects (s ∷ ss) ks h =
    stmts-Collects ss (collect_expr_kips (stmt_expr s) ks) (expr-Collects (stmt_expr s) ks h)

spends-Collects :
    (ss : List Spend) (ks : List ℕ) → Collects ks → Collects (collect_spends_kips ss ks)
unfolding collect_spends_kips
spends-Collects [] ks h = h
spends-Collects (s ∷ ss) ks h =
    spends-Collects ss (collect_stmts_kips s.body ks) (stmts-Collects s.body ks h)

contracts-Collects :
    (cs : List Contract) (ks : List ℕ) → Collects ks → Collects (collect_contracts_kips cs ks)
unfolding collect_contracts_kips
contracts-Collects [] ks h = h
contracts-Collects (c ∷ cs) ks h =
    contracts-Collects cs (collect_spends_kips c.spends ks) (spends-Collects c.spends ks h)

above-insert :
    (k j : ℕ) (ks : List ℕ) → k < j → All (λ i. k < i) ks → All (λ i. k < i) (insert_sorted j ks)
unfolding insert_sorted
above-insert k j [] h hs = (h, tt)
above-insert k j (i ∷ ks) h (p, hs) = elim (Bool-cases (leb j i)) [
  | inl low ↦ rw low (h, (p, hs))
  | inr high ↦ rw high (p, above-insert k j ks h hs)
]

pub above_trans : (j i : ℕ) (ks : List ℕ) → j < i → All (λ m. i < m) ks → All (λ m. j < m) ks
above_trans j i [] h hs = tt
above_trans j i (m ∷ ks) h (p, hs) = (omega arith, above_trans j i ks h hs)

insert_sorted-Ascending :
    (j : ℕ) (ks : List ℕ) → has_kip j ks ≡ false → Ascending ks → Ascending (insert_sorted j ks)
unfolding insert_sorted has_kip
insert_sorted-Ascending j [] new h = (tt, tt)
insert_sorted-Ascending j (i ∷ ks) new (above, h) = elim (Bool-cases (j == i)) [
  | inl same ↦ cc (rw same at new)
  | inr differ ↦ elim (Bool-cases (leb j i)) [
    | inl low ↦
        let less : j < i = ground arith in
        rw low ((less, above_trans j i ks less above), (above, h))
    | inr high ↦ rw high (
      above-insert i j ks (leb-false j i high) above,
      insert_sorted-Ascending j ks (rw differ at new) h,
    )
  ]
]

has_kip-insert :
    (k j : ℕ) (ks : List ℕ)
    → has_kip k (insert_sorted j ks) ≡ (if k == j then true else has_kip k ks)
unfolding insert_sorted has_kip
has_kip-insert k j [] = refl
has_kip-insert k j (i ∷ ks) = ground (arith, has_kip-insert k j ks)

has_kip-sort : (k : ℕ) (ks : List ℕ) → has_kip k (sort ks) ≡ has_kip k ks
unfolding sort has_kip
has_kip-sort k [] = refl
has_kip-sort k (j ∷ ks) = rw (has_kip-insert k j (sort ks), has_kip-sort k ks) refl

sort-Ascending : (ks : List ℕ) → Collects ks → Ascending (sort ks)
unfolding sort Collects
sort-Ascending [] h = tt
sort-Ascending (k ∷ ks) (new, known, h) =
    insert_sorted-Ascending k (sort ks) (rw (has_kip-sort k ks) new) (sort-Ascending ks h)

-- The known ones.
AreKnown : List ℕ → Type 0
AreKnown = All λ k. has_kip k known_kips ≡ true

Collects-AreKnown : (ks : List ℕ) → Collects ks → AreKnown ks
unfolding Collects AreKnown
Collects-AreKnown [] h = tt
Collects-AreKnown (k ∷ ks) (new, known, h) = (known, Collects-AreKnown ks h)

insert_sorted-AreKnown :
    (k : ℕ) (ks : List ℕ)
    → has_kip k known_kips ≡ true
    → AreKnown ks
    → AreKnown (insert_sorted k ks)
unfolding insert_sorted AreKnown
insert_sorted-AreKnown k [] known h = (known, tt)
insert_sorted-AreKnown k (j ∷ ks) known (p, h) = elim (Bool-cases (leb k j)) [
  | inl low ↦ rw low (known, (p, h))
  | inr high ↦ rw high (p, insert_sorted-AreKnown k ks known h)
]

sort-AreKnown : (ks : List ℕ) → AreKnown ks → AreKnown (sort ks)
unfolding sort AreKnown
sort-AreKnown [] h = tt
sort-AreKnown (k ∷ ks) (known, h) = insert_sorted-AreKnown k (sort ks) known (sort-AreKnown ks h)

-- The list of KIPs collected from a program is in ascending order, has none twice, and each is 10, 15,
-- 16 or 20.
pub collect_kip_requirements-Ascending :
    (p : Program)
    → Ascending (collect_kip_requirements p)
      × All (λ k. has_kip k known_kips ≡ true) (collect_kip_requirements p)
unfolding collect_kip_requirements Collects AreKnown
collect_kip_requirements-Ascending p =
    let ks = collect_contracts_kips p.contracts [] in
    let collected : Collects ks = contracts-Collects p.contracts [] tt in
    (sort-Ascending ks collected, sort-AreKnown ks (Collects-AreKnown ks collected))
