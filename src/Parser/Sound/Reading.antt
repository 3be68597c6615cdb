-- ===== src/Parser/Sound/Reading.antt =====
-- compiler/parser/src/parser.rs: the tokens that the steps of the parser have read.
use Prim.Native.String
use kaspa_script.Prelude.{
  ℕ, ◌+◌, ◌-◌, ◌<◌, ◌≤◌, ◌≡◌, refl, String, Bool, true, false, Option, none, some, get_elem?, not,
  arith, if◌then◌else◌,
}
use kaspa_script.Prelude.Fault
use kaspa_script.Prelude.Fault.{Result, ok, err}
use kaspa_script.Syntax.Token.{Span}
use kaspa_script.Syntax.Kind.{TokenKind, Token}
use kaspa_script.Syntax.Ast.{BinaryOp}
use kaspa_script.Parser.State.{
  Parser, Failure, Step, Parse, is_value_keyword, discriminant_eq, u64_of, kind_matches, error_at,
  error_here, take_token, advance_or_error, check_exact, match_exact, expect_exact, previous_span,
  span_or, in_range, parse_u64, keyword_name, name_token, parse_identifier,
}
use kaspa_script.Parser.Expressions.{at_least, on_operator, separator}
use kaspa_script.Parser.Grammar.{At, Is, Named, Separated, comma, last}

-- If there is a result, `P` holds of it and of the cursor after it.
pub data Gives {A : Type 0} (P : A → ℕ → Type 0) : Step A → Type 0 where
  given : {a : A} {cursor : ℕ} → P a cursor → Gives P (ok (a, cursor))
  stopped : {e : Failure} → Gives P (err e)

module _ {A B : Type 0} where
  pub Gives-bind :
      {P : A → ℕ → Type 0} {Q : B → ℕ → Type 0} {r : Step A} (g : A × ℕ → Step B)
      → Gives P r
      → ((a : A) (cursor : ℕ) → P a cursor → Gives Q (g (a, cursor)))
      → Gives Q (Fault.◌>>=◌ r g)
  Gives-bind g (given {a} {cursor} h) k = k a cursor h
  Gives-bind g stopped k = stopped

pub Gives-map :
    {A : Type 0} {P Q : A → ℕ → Type 0} {r : Step A}
    → ((a : A) (cursor : ℕ) → P a cursor → Q a cursor)
    → Gives P r
    → Gives Q r
Gives-map f (given {a} {cursor} h) = given (f a cursor h)
Gives-map f stopped = stopped

-- A test picks one of two parsers.
pub Gives-if :
    {A : Type 0} {P : A → ℕ → Type 0} (b : Bool) (x y : Parse A) (cursor : ℕ)
    → (b ≡ true → Gives P (x cursor))
    → (b ≡ false → Gives P (y cursor))
    → Gives P ((if b then x else y) cursor)
Gives-if true x y cursor h k = h refl
Gives-if false x y cursor h k = k refl

of_not : (b : Bool) → not b ≡ false → b ≡ true
of_not true e = refl
of_not false e = cc

-- The operator that the loop takes, or none.
pub operator-Gives :
    {A : Type 0} {Q : A → ℕ → Type 0} (o : Option (BinaryOp × ℕ)) (stop : Parse A)
    (go : BinaryOp → ℕ → Parse A) (cursor : ℕ)
    → (o ≡ none → Gives Q (stop cursor))
    → ((op : BinaryOp) (precedence : ℕ)
        → o ≡ some (op, precedence)
        → Gives Q (go op precedence (cursor + 1)))
    → Gives Q (on_operator o stop go cursor)
unfolding on_operator
operator-Gives none stop go cursor h k = h refl
operator-Gives (some (op, precedence)) stop go cursor h k = k op precedence refl

pub at_least-some :
    (min : ℕ) (o : Option (BinaryOp × ℕ)) (op : BinaryOp) (precedence : ℕ)
    → at_least min o ≡ some (op, precedence)
    → (o ≡ some (op, precedence)) × (min ≤ precedence)
unfolding at_least
at_least-some min none op precedence h = cc
at_least-some min (some (op', q)) op precedence h = ground arith

pub at_least-none :
    (min : ℕ) (o : Option (BinaryOp × ℕ)) (op : BinaryOp) (precedence : ℕ)
    → at_least min o ≡ none
    → o ≡ some (op, precedence)
    → precedence < min
unfolding at_least
at_least-none min none op precedence h e = cc
at_least-none min (some (op', q)) op precedence h e = ground arith

module _ (p : Parser) where
  -- One token was read.
  abbrev pub OneAt : (A : Type 0) → ℕ → (A → Token → Type 0) → A → ℕ → Type 0
  OneAt A c P a c' = (c' ≡ c + 1) × ((t : Token) × At p c t × P a t)

  error_here-Gives :
      {A : Type 0} {P : A → ℕ → Type 0} (message : String) (cursor : ℕ)
      → Gives P (error_here p message cursor)
  unfolding error_here error_at
  error_here-Gives message cursor = stopped

  pub error_at-Gives :
      {A : Type 0} {P : A → ℕ → Type 0} (span : Span) (message : String) (cursor : ℕ)
      → Gives P (error_at p span message cursor)
  unfolding error_at
  error_at-Gives span message cursor = stopped

  take_token-Gives :
      (o : Option Token) (message : String) (cursor : ℕ)
      → get_elem? p.tokens cursor ≡ o
      → Gives (λ t c'. (c' ≡ cursor + 1) × At p cursor t) (take_token p o message cursor)
  unfolding take_token
  take_token-Gives none message cursor e = error_here-Gives message cursor
  take_token-Gives (some token) message cursor e = given (refl, e)

  pub advance-Gives :
      (message : String) (cursor : ℕ)
      → Gives (λ t c'. (c' ≡ cursor + 1) × At p cursor t) (advance_or_error p message cursor)
  unfolding advance_or_error
  advance-Gives message cursor = take_token-Gives (get_elem? p.tokens cursor) message cursor refl

  pub expect-Gives :
      (expected : TokenKind) (label : String) (cursor : ℕ)
      → Gives
          (λ t c'. (c' ≡ cursor + 1) × Is p expected cursor t)
          (expect_exact p expected label cursor)
  unfolding expect_exact
  expect-Gives expected label cursor =
      Gives-bind _ (advance-Gives (String.◌++◌ "expected " label) cursor) (λ token c' h.
        Gives-if (discriminant_eq token.kind expected) _ _ c' (λ e. given (h.0, (h.1, e)))
          (λ e. error_at-Gives token.span _ c'))

  Is-of_matches :
      (expected : TokenKind) (cursor : ℕ) (o : Option Token)
      → get_elem? p.tokens cursor ≡ o
      → kind_matches expected o ≡ true
      → (t : Token) × Is p expected cursor t
  unfolding kind_matches
  Is-of_matches expected cursor none e h = cc
  Is-of_matches expected cursor (some token) e h = (token, (e, h))

  match-on :
      {A : Type 0} {Q : A → ℕ → Type 0} (g : Bool × ℕ → Step A) (b : Bool) (cursor : ℕ)
      → (b ≡ true → Gives Q (g (true, cursor + 1)))
      → Gives Q (g (false, cursor))
      → Gives Q (Fault.◌>>=◌ (if b then ok (true, cursor + 1) else ok (false, cursor)) g)
  match-on g true cursor h k = h refl
  match-on g false cursor h k = k

  -- The two ways on from a token that may be there.
  pub match-Gives :
      {A : Type 0} {Q : A → ℕ → Type 0} (g : Bool × ℕ → Step A) (expected : TokenKind) (cursor : ℕ)
      → ((t : Token) → Is p expected cursor t → Gives Q (g (true, cursor + 1)))
      → Gives Q (g (false, cursor))
      → Gives Q (Fault.◌>>=◌ (match_exact p expected cursor) g)
  unfolding match_exact check_exact
  match-Gives g expected cursor taken kept =
      match-on g (kind_matches expected (get_elem? p.tokens cursor)) cursor
        (λ e. let (t, h) = Is-of_matches expected cursor _ refl e in taken t h) kept

  -- The token before the cursor is the last one read.
  pub previous_span-At : (c : ℕ) (t : Token) → At p c t → previous_span p (c + 1) ≡ t.span
  unfolding previous_span span_or
  previous_span-At c t h = let e : c + 1 - 1 ≡ c = omega arith in rw (e, h)

  keyword_name-Gives :
      (t : Token) (kind : TokenKind) (c c' : ℕ)
      → At p c t
      → t.kind ≡ kind
      → c' ≡ c + 1
      → Gives (λ name at. (at ≡ c + 1) × Named p c name) (keyword_name p t kind c')
  unfolding keyword_name
  keyword_name-Gives t kind c c' h k e =
      Gives-if (is_value_keyword kind) _ _ c' (λ b. given (e, Named.keyword h k b))
        (λ b. error_at-Gives t.span _ c')

  name_token-Gives :
      (t : Token) (kind : TokenKind) (c c' : ℕ)
      → At p c t
      → t.kind ≡ kind
      → c' ≡ c + 1
      → Gives (λ name at. (at ≡ c + 1) × Named p c name) (name_token p t kind c')
  unfolding name_token
  name_token-Gives t (TokenKind.identifier name) c c' h k e = given (e, Named.identifier h k)
  name_token-Gives t kind c c' h k e = keyword_name-Gives t kind c c' h k e

  pub identifier-Gives :
      (c : ℕ) → Gives (λ name at. (at ≡ c + 1) × Named p c name) (parse_identifier p c)
  unfolding parse_identifier
  identifier-Gives c =
      Gives-bind _ (advance-Gives "expected identifier" c)
        (λ t c' h. name_token-Gives t t.kind c c' h.1 refl h.0)

  in_range-Gives :
      (o : Option ℕ) (span : Span) (c : ℕ)
      → Gives (λ n c'. (c' ≡ c) × (o ≡ some n)) (in_range p o span c)
  unfolding in_range
  in_range-Gives (some n) span c = given (refl, refl)
  in_range-Gives none span c = error_at-Gives span _ c

  pub parse_u64-Gives :
      (value : String) (span : Span) (c : ℕ)
      → Gives (λ n c'. (c' ≡ c) × (u64_of value ≡ some n)) (parse_u64 p value span c)
  unfolding parse_u64
  parse_u64-Gives value span c = in_range-Gives (u64_of value) span c

  pub separator-Gives :
      (closing : TokenKind) (message : String) (c : ℕ)
      → Gives (λ _ c'. Separated p closing c c') (separator p closing message c)
  unfolding separator
  separator-Gives closing message c =
      match-Gives _ TokenKind.comma c (λ t h. given (comma h))
        (Gives-if (not (check_exact p closing c)) _ _ c (λ _. error_here-Gives message c)
          (λ e. given (last (of_not _ e))))
