-- ===== src/Semantic/Fresh.antt =====
-- compiler/semantic/src/checker.rs: the names that a set or a scope takes in, and the demands on them.
use text.Mathlib.Text.{◌==◌ as str_eq}
use kaspa_script.Prelude.{
  ◌≡◌, refl, String, Bool, true, false, List, [], ◌∷◌, map, All, not, Bool-cases, inl, inr,
}
use kaspa_script.Prelude.Text.{member, Distinct, ==-sym}
use kaspa_script.Syntax.Token.{Span}
use kaspa_script.Syntax.Ast.{Param}
use kaspa_script.Semantic.Checker.{Scope, get, is_some, contains, insert_name, Checker, new, demand}
use kaspa_script.Semantic.Growing.{IsGrowing-demand, demand-met}

abbrev pub param_names : List Param → List String
param_names = map λ p. p.name.name

-- Names that are new one after the other, where `seen` are known.
unfoldable pub Fresh : List String → List String → Type 0
Fresh seen [] = Unit
Fresh seen (n ∷ ns) = (member n seen ≡ false) × Fresh (n ∷ seen) ns

apart :
    (n : String) (seen ns : List String)
    → All (λ m. member m (n ∷ seen) ≡ false) ns
    → (member n ns ≡ false) × All (λ m. member m seen ≡ false) ns
unfolding member
apart n seen [] h = (refl, tt)
apart n seen (m ∷ ns) (h, hs) = elim (Bool-cases (str_eq m n)) [
  | inl same ↦ cc (rw same at h)
  | inr other ↦
      (rw (==-sym n m, other) (apart n seen ns hs).0, (rw other at h, (apart n seen ns hs).1))
]

pub Fresh-Distinct :
    (seen ns : List String) → Fresh seen ns → Distinct ns × All (λ m. member m seen ≡ false) ns
unfolding Fresh
Fresh-Distinct seen [] h = (tt, tt)
Fresh-Distinct seen (n ∷ ns) (h, hs) =
    let (d, others) = Fresh-Distinct (n ∷ seen) ns hs in
    let (new, old) = apart n seen ns others in ((new, d), (h, old))

pub insert_name-met :
    (n : String) (seen : List String)
    → (insert_name n seen).0 ≡ true
    → (member n seen ≡ false) × ((insert_name n seen).1 ≡ n ∷ seen)
unfolding insert_name
insert_name-met n seen h = elim (Bool-cases (member n seen)) [
  | inl old ↦ cc (rw old at h)
  | inr fresh ↦ (fresh, rw fresh refl)
]

pub not-true : (b : Bool) → not b ≡ true → b ≡ false
not-true false h = refl
not-true true h = cc

-- A demand that left no error began without one, and was met.
pub demanded :
    (b : Bool) (span : Span) (message : String) (c : Checker)
    → (demand b span message c).1.errors ≡ []
    → (c.errors ≡ []) × (b ≡ true)
demanded b span message c h = (IsGrowing-demand b span message c h, demand-met b span message c h)

pub contains-member :
    (n : String) (scope : Scope) → contains n scope ≡ member n (map (λ e. e.0) scope)
unfolding contains get is_some member
contains-member n [] = refl
contains-member n ((m, ty) ∷ scope) = elim (Bool-cases (str_eq m n)) [
  | inl same ↦ rw (==-sym n m, same) refl
  | inr other ↦ rw (==-sym n m, other) (contains-member n scope)
]
