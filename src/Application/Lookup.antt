-- ===== src/Application/Lookup.antt =====
-- compiler/model/src/lib.rs, compiler/ir/src/application.rs: the model of a checked program has each
-- spend under its names.
use text.Mathlib.Text.{◌==◌ as str_eq}
use text.Mathlib.TextEquality.{eq_iff}
use mathlib.Core.List.{Memᴰ}
use kaspa_script.Prelude.{
  ◌≡◌, refl, String, Bool, true, false, List, [], ◌∷◌, some, map, All, if◌then◌else◌,
}
use kaspa_script.Prelude.Fault.{ok}
use kaspa_script.Prelude.Text.{member, Distinct}
use kaspa_script.Syntax.Ast.{Spend, Contract, Program}
use kaspa_script.Semantic.Analyze.{Analysis, analyze_program}
use kaspa_script.Semantic.Accepted.{AcceptedContract, analyze_program-accepted}
use kaspa_script.Application.Model.{find_transition, find_contract, transition_of, transition}
use kaspa_script.Application.Assurances.{new}
use kaspa_script.Application.Build.{build_transition_model, contract_model, build_application_model}

same-true : (s : String) → str_eq s s ≡ true
same-true s = (eq_iff s s).1 refl

absent-if : (b c : Bool) → (if b then true else c) ≡ false → (b ≡ false) × (c ≡ false)
absent-if true c h = cc
absent-if false c h = (refl, h)

-- A name that differs from all of a list differs from that of an element.
absent-ne :
    {A : Type 0} (name : A → String) (s : String) (xs : List A) {x : A}
    → member s (map name xs) ≡ false
    → Memᴰ x xs
    → str_eq s (name x) ≡ false
unfolding member
absent-ne name s [] h m = elim m [ ]
absent-ne name s (y ∷ xs) {x} h (Memᴰ.head e) = rw e (absent-if _ _ h).0
absent-ne name s (y ∷ xs) h (Memᴰ.tail m) = absent-ne name s xs (absent-if _ _ h).1 m

module _ (debug : String → String) where
  find_transition-Mem :
      (ss : List Spend) {s : Spend}
      → Distinct (map (λ k. k.name.name) ss)
      → Memᴰ s ss
      → find_transition s.name.name (map (build_transition_model debug) ss)
        ≡ some (build_transition_model debug s)
  unfolding find_transition build_transition_model
  find_transition-Mem [] h m = elim m [ ]
  find_transition-Mem (t ∷ ss) {s} h (Memᴰ.head e) = rw (e, same-true t.name.name) refl
  find_transition-Mem (t ∷ ss) {s} h (Memᴰ.tail m) =
      rw (absent-ne (λ k. k.name.name) t.name.name ss h.0 m) (find_transition-Mem ss h.1 m)

  find_contract-Mem :
      (cs : List Contract) {c : Contract}
      → Distinct (map (λ k. k.name.name) cs)
      → Memᴰ c cs
      → find_contract c.name.name (map (contract_model debug) cs) ≡ some (contract_model debug c)
  unfolding find_contract contract_model
  find_contract-Mem [] h m = elim m [ ]
  find_contract-Mem (t ∷ cs) {c} h (Memᴰ.head e) = rw (e, same-true t.name.name) refl
  find_contract-Mem (t ∷ cs) {c} h (Memᴰ.tail m) =
      rw (absent-ne (λ k. k.name.name) t.name.name cs h.0 m) (find_contract-Mem cs h.1 m)

All-Mem : {A : Type 0} (P : A → Type 0) (xs : List A) {x : A} → All P xs → Memᴰ x xs → P x
All-Mem P [] h m = elim m [ ]
All-Mem P (y ∷ xs) h (Memᴰ.head e) = rw e h.0
All-Mem P (y ∷ xs) h (Memᴰ.tail m) = All-Mem P xs h.1 m

-- In the application model of a program that the checker accepts, the search by the names of a contract
-- and of one of its spends finds the model of that spend.
pub transition-build_application_model :
    (debug : String → String) (p : Program) (source file : String) {a : Analysis} {c : Contract}
    {s : Spend}
    → analyze_program p source file ≡ ok a
    → Memᴰ c p.contracts
    → Memᴰ s c.spends
    → transition (build_application_model debug p) c.name.name s.name.name
      ≡ some (build_transition_model debug s)
unfolding transition build_application_model new transition_of contract_model
transition-build_application_model debug p source file {a} {c} {s} h m m' =
    let (distinct, accepted) = analyze_program-accepted p source file h in
    let k : AcceptedContract c = All-Mem AcceptedContract p.contracts accepted m in
    rw (find_contract-Mem debug p.contracts distinct m)
      (find_transition-Mem debug c.spends k.spends_differ m')
