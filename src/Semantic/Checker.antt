-- ===== src/Semantic/Checker.antt =====
-- compiler/semantic/src/scope.rs, checker.rs: the checker's state, and the scopes. The state's
-- methods return the new state with their result.
use text.Mathlib.Text.{◌==◌}
use kaspa_script.Prelude.{
  String, Bool, true, false, List, [], ◌∷◌, ◌++◌, Option, none, some, if◌then◌else◌,
}
use kaspa_script.Prelude.Text.{member}
use kaspa_script.Syntax.Token.{Span, TypeName}
use kaspa_script.Semantic.Failure.{SemanticError}
use kaspa_script.Semantic.Location.{locate}

abbrev pub Scope : Type 0
Scope = List (String × TypeName)

-- `Scope::get`
unfoldable pub get : String → Scope → Option TypeName
get name [] = none
get name ((n, ty) ∷ scope) = if n == name then some ty else get name scope

unfoldable pub is_some : Option TypeName → Bool
is_some (some _) = true
is_some none = false

-- `Scope::contains`
unfoldable pub contains : String → Scope → Bool
unfolding get is_some
contains name scope = is_some (get name scope)

-- `Scope::insert`: a later entry hides an earlier one.
unfoldable pub insert : String → TypeName → Scope → Scope
insert name ty scope = (name, ty) ∷ scope

-- A set of names, with `insert` true for a new one.
unfoldable pub insert_name : String → List String → Bool × List String
unfolding member
insert_name name names = if member name names then (false, names) else (true, name ∷ names)

pub record Checker : Type 0 where
  pub source : String
  pub file : String
  pub errors : List SemanticError
  pub spend_names : List String

unfoldable pub new : String → String → Checker
new source file = record { source = source; file = file; errors = []; spend_names = [] }

abbrev pub Check : Type 0 → Type 0
Check A = Checker → A × Checker

module _ {A B : Type 0} where
  infixl 5 ◌>>=◌ ◌>>◌
  abbrev pub ◌>>=◌ : Check A → (A → Check B) → Check B
  ◌>>=◌ m f c = f (m c).0 (m c).1

  abbrev pub ◌>>◌ : Check A → Check B → Check B
  ◌>>◌ m k c = k (m c).1

abbrev pub pure : {A : Type 0} → A → Check A
pure a c = (a, c)

abbrev pub skip : Check (Unit {0})
skip c = (tt, c)

-- `Checker::error`
unfoldable pub error : Span → String → Check (Unit {0})
unfolding locate
error span message c =
    let at = locate c.source c.file span.start in
    (
      tt,
      record c {
        errors =
            c.errors
            ++ record {
              file = at.file;
              line = at.line;
              column = at.column;
              span = span;
              message = message;
            }
              ∷ [];
      },
    )

-- An error where the test fails.
unfoldable pub demand : Bool → Span → String → Check (Unit {0})
unfolding error
demand true span message = skip
demand false span message = error span message
