-- ===== src/Application/Letters.antt =====
-- compiler/ir/src/application.rs: only a name has a path of letters alone, such as `input`.
use Prim.Native.Char.{Char, code}
use Prim.Native.String
use Prim.Native.String.append
use text.Mathlib.Text.{◌==◌ as str_eq}
use text.Mathlib.TextEquality.{eq_iff}
use kaspa_script.Prelude.{
  ℕ, zero, suc, ◌%◌, ◌/◌, ◌<◌, ◌≡◌, refl, String, Bool, true, false, ◌&&◌, leb, ltb, Bool-cases,
  inl, inr, arith,
}
use kaspa_script.Prelude.Text.{digit, decimal_loop, decimal}
use kaspa_script.Syntax.Ast.{Expr}
use kaspa_script.Application.Model.{UnaryOperator}
use kaspa_script.Application.Display.{display, display_all, binary_text, unary_text, bool_text}
use kaspa_script.Application.Normalize.{
  expression_path, normalize_expression, normalize_all, normalize_binary_operator,
  normalize_unary_operator,
}

-- A lowercase letter.
abbrev pub is_letter : Char → Bool
is_letter c = leb 97 (code c) && leb (code c) 122

unfoldable pub letters : String → Bool
letters String.[] = true
letters (String.◌∷◌ c s) = is_letter c && letters s

and_false : (b : Bool) → (b && false) ≡ false
and_false true = refl
and_false false = refl

letters-append : (s t : String) → letters t ≡ false → letters (String.◌++◌ s t) ≡ false
unfolding letters
letters-append String.[] t h = rw (append.nil t) h
letters-append (String.◌∷◌ c s) t h =
    rw (append.cons c s t, letters-append s t h) (and_false (is_letter c))

letters-front : (s t : String) → letters s ≡ false → letters (String.◌++◌ s t) ≡ false
unfolding letters
letters-front String.[] t h = cc
letters-front (String.◌∷◌ c s) t h = rw (append.cons c s t) (elim (Bool-cases (is_letter c)) [
  | inl letter ↦ rw letter (letters-front s t (rw letter at h))
  | inr other ↦ rw other refl
])

digit-letter : (d : ℕ) → d < 10 → is_letter (digit d) ≡ false
digit-letter zero h = refl
digit-letter (suc zero) h = refl
digit-letter (suc (suc zero)) h = refl
digit-letter (suc (suc (suc zero))) h = refl
digit-letter (suc (suc (suc (suc zero)))) h = refl
digit-letter (suc (suc (suc (suc (suc zero))))) h = refl
digit-letter (suc (suc (suc (suc (suc (suc zero)))))) h = refl
digit-letter (suc (suc (suc (suc (suc (suc (suc zero))))))) h = refl
digit-letter (suc (suc (suc (suc (suc (suc (suc (suc zero)))))))) h = refl
digit-letter (suc (suc (suc (suc (suc (suc (suc (suc (suc zero))))))))) h = refl
digit-letter (suc (suc (suc (suc (suc (suc (suc (suc (suc (suc d)))))))))) h = absurd (omega arith)

decimal_loop-letters :
    (f n : ℕ) (acc : String) → letters acc ≡ false → letters (decimal_loop f n acc) ≡ false
unfolding decimal_loop letters
decimal_loop-letters zero n acc h = h
decimal_loop-letters (suc f) n acc h =
    let here : letters (String.◌∷◌ (digit (n % 10)) acc) ≡ false =
      rw h (and_false (is_letter (digit (n % 10)))) in
    elim (Bool-cases (ltb n 10)) [
      | inl small ↦ rw small here
      | inr large ↦
          rw large (decimal_loop-letters f (n / 10) (String.◌∷◌ (digit (n % 10)) acc) here)
    ]

letters-decimal : (n : ℕ) → letters (decimal n) ≡ false
unfolding decimal decimal_loop letters
letters-decimal n =
    let here : letters (String.◌∷◌ (digit (n % 10)) "") ≡ false =
      rw (digit-letter (n % 10) (omega arith)) refl in
    elim (Bool-cases (ltb n 10)) [
      | inl small ↦ rw small here
      | inr large ↦ rw large (decimal_loop-letters n (n / 10) (String.◌∷◌ (digit (n % 10)) "") here)
    ]

unary-letters : (op : UnaryOperator) → letters (unary_text op) ≡ false
unfolding unary_text letters
unary-letters UnaryOperator.negation = refl
unary-letters UnaryOperator.negate = refl

-- Not a text of letters, or one of the two words.
differs : (s t : String) → letters s ≡ false → letters t ≡ true → str_eq s t ≡ false
differs s t h k = elim (Bool-cases (str_eq s t)) [
  | inl same ↦ let e = (eq_iff s t).0 same in cc
  | inr other ↦ other
]

-- The text that the standard library writes for a string has a quote in it, so it is not letters alone.
abbrev pub Quotes : (String → String) → Type 0
Quotes debug = (s : String) → letters (debug s) ≡ false

-- An expression that is not a name.
abbrev pub IsCompound : Expr → Type 0
IsCompound (Expr.ident _) = ⊥
IsCompound _ = Unit

bool-differs :
    (b : Bool) (t : String)
    → str_eq "true" t ≡ false
    → str_eq "false" t ≡ false
    → str_eq (bool_text b) t ≡ false
unfolding bool_text
bool-differs true t h k = h
bool-differs false t h k = k

-- The path of a compound expression differs from a word of letters, other than `true` and `false`.
pub expression_path-differs :
    (debug : String → String) (e : Expr) (t : String)
    → Quotes debug
    → IsCompound e
    → letters t ≡ true
    → str_eq "true" t ≡ false
    → str_eq "false" t ≡ false
    → str_eq (expression_path debug e) t ≡ false
unfolding expression_path letters
expression_path-differs debug (Expr.ident _) t q c l h k = absurd c
expression_path-differs debug (Expr.field object f _) t q c l h k =
    differs _ t
      (letters-append (expression_path debug object) (String.◌++◌ "." f.name)
        (letters-front "." f.name refl))
      l
expression_path-differs debug (Expr.integer value _) t q c l h k =
    differs _ t (letters-decimal value) l
expression_path-differs debug (Expr.string value _) t q c l h k = differs _ t (q value) l
expression_path-differs debug (Expr.bool value _) t q c l h k = bool-differs value t h k
expression_path-differs debug (Expr.array elements _) t q c l h k =
    let rest = String.◌++◌ (display_all debug (normalize_all debug elements)) "]" in
    differs _ t (letters-front "[" rest refl) l
expression_path-differs debug (Expr.unary op e _) t q c l h k =
    let sign = normalize_unary_operator op in
    differs _ t
      (letters-front (unary_text sign) (display debug (normalize_expression debug e))
        (unary-letters sign))
      l
expression_path-differs debug (Expr.binary left op right _) t q c l h k =
    let sign = binary_text (normalize_binary_operator op) in
    let after =
      String.◌++◌ sign (String.◌++◌ " " (display debug (normalize_expression debug right))) in
    differs _ t
      (letters-append (display debug (normalize_expression debug left)) (String.◌++◌ " " after)
        (letters-front " " after refl))
      l
expression_path-differs debug (Expr.call callee args _) t q c l h k =
    let rest = String.◌++◌ (display_all debug (normalize_all debug args)) ")" in
    differs _ t
      (letters-append (expression_path debug callee) (String.◌++◌ "(" rest)
        (letters-front "(" rest refl))
      l
