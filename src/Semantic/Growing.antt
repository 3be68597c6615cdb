-- ===== src/Semantic/Growing.antt =====
-- The checker only adds errors: a run that ends without errors began without them.
use text.Mathlib.Text.{◌==◌ as str_eq}
use kaspa_script.Prelude.{
  ℕ, ◌≡◌, ◌≢◌, refl, String, Bool, true, false, List, [], ◌∷◌, ◌++◌, Option, none, some, All, leb,
  ◌==◌, ◌||◌, ◌^◌, ◌-◌, if◌then◌else◌,
}
use kaspa_script.Prelude.Text.{member}
use kaspa_script.Syntax.Token.{Span, TypeName}
use kaspa_script.Syntax.Ast.{Ident, Expr, Exprs, expr_span, count, first, second}
use kaspa_script.Ir.LowerCall.{output_index}
use kaspa_script.Semantic.Failure.{SemanticError}
use kaspa_script.Semantic.Checker.{
  Scope, get, Check, Checker, ◌>>=◌, ◌>>◌, pure, skip, error, demand,
}
use kaspa_script.Semantic.Infer.{
  Infer, undefined_or, infer_name, infer_identifier, infer_first, infer_every, check_index,
  check_index_call, is_valid_continuation_name,
}
use kaspa_script.Semantic.Calls.{
  check_continuation_name, is_index, second_span, check_continuation, array_size, check_threshold,
  check_multisig_literal, transaction_field_type, field_of,
}

abbrev pub IsGrowing : {A : Type 0} → Check A → Type 0
IsGrowing m = (c : Checker) → (m c).1.errors ≡ [] → c.errors ≡ []

append-ne-nil : (es : List SemanticError) (e : SemanticError) → es ++ e ∷ [] ≢ []
append-ne-nil [] e h = cc
append-ne-nil (x ∷ es) e h = cc

module _ {A B : Type 0} where
  pub IsGrowing-bind :
      (m : Check A) (f : A → Check B)
      → IsGrowing m
      → ((a : A) → IsGrowing (f a))
      → IsGrowing (m >>= f)
  IsGrowing-bind m f p q c h = p c (q (m c).0 (m c).1 h)

  pub IsGrowing-then : (m : Check A) (k : Check B) → IsGrowing m → IsGrowing k → IsGrowing (m >> k)
  IsGrowing-then m k p q c h = p c (q (m c).1 h)

pub IsGrowing-if :
    {A : Type 0} (b : Bool) (m k : Check A)
    → IsGrowing m
    → IsGrowing k
    → IsGrowing (if b then m else k)
IsGrowing-if true m k p q = p
IsGrowing-if false m k p q = q

pub IsGrowing-pure : {A : Type 0} (a : A) → IsGrowing (pure a)
IsGrowing-pure a c h = h

pub IsGrowing-skip : IsGrowing skip
IsGrowing-skip c h = h

pub IsGrowing-error : (span : Span) (message : String) → IsGrowing (error span message)
unfolding error
IsGrowing-error span message c h = absurd (append-ne-nil c.errors _ h)

pub IsGrowing-demand :
    (b : Bool) (span : Span) (message : String) → IsGrowing (demand b span message)
unfolding demand
IsGrowing-demand true span message = IsGrowing-skip
IsGrowing-demand false span message = IsGrowing-error span message

-- A demand that left no error was met.
pub demand-met :
    (b : Bool) (span : Span) (message : String) (c : Checker)
    → (demand b span message c).1.errors ≡ []
    → b ≡ true
unfolding demand error
demand-met true span message c h = refl
demand-met false span message c h = absurd (append-ne-nil c.errors _ h)

-- An error, then a value.
abbrev failing : {A : Type 0} → Span → String → A → Check A
failing span message a = error span message >> pure a

IsGrowing-failing :
    {A : Type 0} (span : Span) (message : String) (a : A) → IsGrowing (failing span message a)
IsGrowing-failing span message a =
    IsGrowing-then (error span message) (pure a) (IsGrowing-error span message) (IsGrowing-pure a)

abbrev pub GrowingInfer : Infer → Type 0
GrowingInfer i = (scope : Scope) → IsGrowing (i scope)

undefined_or-IsGrowing :
    (o : Option TypeName) (span : Span) (name : String) → IsGrowing (undefined_or o span name)
unfolding undefined_or
undefined_or-IsGrowing none span name = IsGrowing-failing {A = Option TypeName} span _ none
undefined_or-IsGrowing (some ty) span name = IsGrowing-pure {A = Option TypeName} (some ty)

infer_name-IsGrowing : (name : String) (span : Span) → GrowingInfer (infer_name name span)
unfolding infer_name
infer_name-IsGrowing name span scope =
    IsGrowing-if (str_eq name "block") _ _ (λ _ h. h)
      (IsGrowing-if (str_eq name "covenant_id") _ _ (λ _ h. h)
        (IsGrowing-if (str_eq name "sequencing") _ _ (λ _ h. h)
          (IsGrowing-if (str_eq name "input_count" || str_eq name "output_count") _ _ (λ _ h. h)
            (IsGrowing-if (member name _) _ _ (λ _ h. h)
              (undefined_or-IsGrowing (get name scope) span name)))))

IsGrowing-split :
    {A : Type 0} (b : Checker → Bool) (m k : Check A)
    → IsGrowing m
    → IsGrowing k
    → IsGrowing (λ c. if b c then m c else k c)
IsGrowing-split b m k p q c h = split (b c) h
  where
    split : (t : Bool) → (if t then m c else k c).1.errors ≡ [] → c.errors ≡ []
    split true e = p c e
    split false e = q c e

pub infer_identifier-IsGrowing : (i : Ident) → GrowingInfer (infer_identifier i)
unfolding infer_identifier
infer_identifier-IsGrowing i scope =
    IsGrowing-split (λ c. member i.name c.spend_names) _ _
      (IsGrowing-failing {A = Option TypeName} i.span _ none)
      (infer_name-IsGrowing i.name i.span scope)

pub infer_first-IsGrowing : (is : List Infer) → All GrowingInfer is → GrowingInfer (infer_first is)
unfolding infer_first
infer_first-IsGrowing [] g scope = IsGrowing-pure {A = Option TypeName} none
infer_first-IsGrowing (i ∷ is) g scope = g.0 scope

pub infer_every-IsGrowing :
    (is : List Infer) → All GrowingInfer is → (scope : Scope) → IsGrowing (infer_every is scope)
unfolding infer_every
infer_every-IsGrowing [] g scope c h = h
infer_every-IsGrowing (i ∷ is) g scope c h =
    g.0 scope c (infer_every-IsGrowing is g.1 scope (i scope c).1 h)

check_index-IsGrowing : (o : Option Expr) → IsGrowing (check_index o)
unfolding check_index
check_index-IsGrowing (some (Expr.integer value span)) =
    IsGrowing-if (leb value (2 ^ 32 - 1)) _ _ IsGrowing-skip (IsGrowing-error span _)
check_index-IsGrowing none = IsGrowing-skip
check_index-IsGrowing (some e) = IsGrowing-error (expr_span e) _

pub check_index_call-IsGrowing :
    (args : Exprs) (span : Span) (ty : TypeName) → IsGrowing (check_index_call args span ty)
unfolding check_index_call
check_index_call-IsGrowing args span ty c h =
    IsGrowing-if (count args == 1) (check_index (first args)) (error span _)
      (check_index-IsGrowing (first args)) (IsGrowing-error span _) c h

check_continuation_name-IsGrowing : (o : Option Expr) → IsGrowing (check_continuation_name o)
unfolding check_continuation_name
check_continuation_name-IsGrowing none = IsGrowing-skip
check_continuation_name-IsGrowing (some (Expr.string value span)) =
    IsGrowing-if (is_valid_continuation_name value) _ _ (IsGrowing-demand _ span _)
      (IsGrowing-error span _)
check_continuation_name-IsGrowing (some e) = IsGrowing-error (expr_span e) _

pub check_continuation-IsGrowing :
    (args : Exprs) (span : Span) → IsGrowing (check_continuation args span)
unfolding check_continuation
check_continuation-IsGrowing args span =
    IsGrowing-if (count args == 2) _ _
      (IsGrowing-then {B = Unit} (check_continuation_name (first args))
        (demand (is_index (output_index (second args))) (second_span args span)
          "`continuation` second argument must be output(index)")
        (check_continuation_name-IsGrowing (first args))
        (IsGrowing-demand (is_index (output_index (second args))) (second_span args span) _))
      (IsGrowing-error span "`continuation` requires a name and output(index)")

check_threshold-IsGrowing :
    (k : ℕ) (o : Option ℕ) (span : Span) → IsGrowing (check_threshold k o span)
unfolding check_threshold
check_threshold-IsGrowing k none span = IsGrowing-skip
check_threshold-IsGrowing k (some n) span = IsGrowing-demand (leb k n) span _

pub check_multisig_literal-IsGrowing :
    (o keys : Option Expr) → IsGrowing (check_multisig_literal o keys)
unfolding check_multisig_literal
check_multisig_literal-IsGrowing (some (Expr.integer k span)) keys =
    check_threshold-IsGrowing k (array_size keys) span
check_multisig_literal-IsGrowing none keys = IsGrowing-skip
check_multisig_literal-IsGrowing (some e) keys = IsGrowing-error (expr_span e) _

transaction_field_type-IsGrowing : (f : Ident) → IsGrowing (transaction_field_type f)
unfolding transaction_field_type
transaction_field_type-IsGrowing f =
    IsGrowing-if (str_eq f.name "value") _ _ (λ _ h. h)
      (IsGrowing-if (str_eq f.name "script") _ _ (λ _ h. h)
        (IsGrowing-if (str_eq f.name "covenant_id") _ _ (λ _ h. h)
          (IsGrowing-failing {A = Option TypeName} f.span _ none)))

pub field_of-IsGrowing : (f : Ident) (o : Option TypeName) → IsGrowing (field_of f o)
unfolding field_of
field_of-IsGrowing f (some TypeName.input) = transaction_field_type-IsGrowing f
field_of-IsGrowing f (some TypeName.output) = transaction_field_type-IsGrowing f
field_of-IsGrowing f other = IsGrowing-pure other
