-- ===== src/Parser/Ends/Reading.antt =====
-- compiler/parser/src/parser.rs: what a step gives, and the steps that read one token.
use kaspa_script.Prelude.{
  ℕ, zero, suc, ◌+◌, ◌-◌, ◌^◌, ◌<◌, ◌≤◌, ◌≡◌, refl, String, Bool, true, false, List, [], ◌∷◌,
  Option, none, some, length, get_elem?, ltb→lt, arith, if◌then◌else◌,
}
use kaspa_script.Prelude.Fault
use kaspa_script.Prelude.Fault.{Result, ok, err}
use kaspa_script.Syntax.Token.{Span}
use kaspa_script.Syntax.Kind.{TokenKind, Token}
use kaspa_script.Parser.State.{
  Parser, failed, Step, Parse, is_value_keyword, discriminant_eq, below_u64, u64_of, unsigned_value,
  kind_matches, error_at, error_here, take_token, advance_or_error, check_exact, match_exact,
  expect_exact, in_range, parse_u64, keyword_name, name_token, parse_identifier,
}

-- A result that `P` holds of, with the cursor after it, or a parse error.
pub data Ends {A : Type 0} (P : A → ℕ → Type 0) : Step A → Type 0 where
  done : {a : A} {cursor : ℕ} → P a cursor → Ends P (ok (a, cursor))
  stopped : {e : _} → Ends P (err (failed e))

-- The tokens from the cursor on.
abbrev pub left : Parser → ℕ → ℕ
left p cursor = length p.tokens - cursor

-- Fewer than `n` tokens are left.
abbrev pub Below : Parser → ℕ → {A : Type 0} → (A → Type 0) → A → ℕ → Type 0
Below p n P a cursor = P a × (left p cursor < n)

abbrev pub Whatever : {A : Type 0} → A → Type 0
Whatever a = Unit

module _ {A B : Type 0} where
  pub Ends-bind :
      {P : A → ℕ → Type 0} {Q : B → ℕ → Type 0} {r : Step A} (g : A × ℕ → Step B)
      → Ends P r
      → ((a : A) (cursor : ℕ) → P a cursor → Ends Q (g (a, cursor)))
      → Ends Q (Fault.◌>>=◌ r g)
  Ends-bind g (done {a} {cursor} h) k = k a cursor h
  Ends-bind g stopped k = stopped

-- A test picks one of two parsers.
pub Ends-if :
    {A : Type 0} {P : A → ℕ → Type 0} (b : Bool) (x y : Parse A) (cursor : ℕ)
    → Ends P (x cursor)
    → Ends P (y cursor)
    → Ends P ((if b then x else y) cursor)
Ends-if true x y cursor h k = h
Ends-if false x y cursor h k = k

pub get_elem?-some-lt :
    {A : Type 0} (xs : List A) (i : ℕ) {a : A} → get_elem? xs i ≡ some a → i < length xs
get_elem?-some-lt [] i h = cc
get_elem?-some-lt (x ∷ xs) zero h = omega arith
get_elem?-some-lt (x ∷ xs) (suc i) h = omega (arith, get_elem?-some-lt xs i h)

module _ (p : Parser) where
  pub error_at-Ends :
      {A : Type 0} {P : A → ℕ → Type 0} (span : Span) (message : String) (cursor : ℕ)
      → Ends P (error_at p span message cursor)
  unfolding error_at
  error_at-Ends span message cursor = stopped

  pub error_here-Ends :
      {A : Type 0} {P : A → ℕ → Type 0} (message : String) (cursor : ℕ)
      → Ends P (error_here p message cursor)
  unfolding error_here
  error_here-Ends message cursor = error_at-Ends _ message cursor

  take_token-Ends :
      (o : Option Token) (message : String) (cursor n : ℕ)
      → get_elem? p.tokens cursor ≡ o
      → left p cursor ≤ n
      → Ends (Below p n Whatever) (take_token p o message cursor)
  unfolding take_token
  take_token-Ends none message cursor n e h = error_here-Ends message cursor
  take_token-Ends (some token) message cursor n e h =
      let inside = get_elem?-some-lt p.tokens cursor e in done (tt, omega arith)

  pub advance-Ends :
      (message : String) (cursor n : ℕ)
      → left p cursor ≤ n
      → Ends (Below p n Whatever) (advance_or_error p message cursor)
  unfolding advance_or_error
  advance-Ends message cursor n h =
      take_token-Ends (get_elem? p.tokens cursor) message cursor n refl h

  pub expect-Ends :
      (expected : TokenKind) (label : String) (cursor n : ℕ)
      → left p cursor ≤ n
      → Ends (Below p n Whatever) (expect_exact p expected label cursor)
  unfolding expect_exact
  expect-Ends expected label cursor n h =
      Ends-bind _ (advance-Ends _ cursor n h) (λ token cursor' b.
        Ends-if (discriminant_eq token.kind expected) _ _ cursor' (done b)
          (error_at-Ends token.span _ cursor'))

  match-Below :
      (expected : TokenKind) (cursor : ℕ) (o : Option Token)
      → get_elem? p.tokens cursor ≡ o
      → kind_matches expected o ≡ true
      → left p (cursor + 1) < left p cursor
  unfolding kind_matches
  match-Below expected cursor none e h = cc
  match-Below expected cursor (some token) e h =
      let inside = get_elem?-some-lt p.tokens cursor e in omega arith

  match-on :
      {A : Type 0} {Q : A → ℕ → Type 0} (g : Bool × ℕ → Step A) (b : Bool) (cursor : ℕ)
      → (b ≡ true → left p (cursor + 1) < left p cursor)
      → ((cursor' : ℕ) → left p cursor' < left p cursor → Ends Q (g (true, cursor')))
      → Ends Q (g (false, cursor))
      → Ends Q (Fault.◌>>=◌ (if b then ok (true, cursor + 1) else ok (false, cursor)) g)
  match-on g true cursor h taken kept = taken (cursor + 1) (h refl)
  match-on g false cursor h taken kept = kept

  -- The two ways on from a token that may be there.
  pub match-Ends :
      {A : Type 0} {Q : A → ℕ → Type 0} (g : Bool × ℕ → Step A) (expected : TokenKind) (cursor : ℕ)
      → ((cursor' : ℕ) → left p cursor' < left p cursor → Ends Q (g (true, cursor')))
      → Ends Q (g (false, cursor))
      → Ends Q (Fault.◌>>=◌ (match_exact p expected cursor) g)
  unfolding match_exact check_exact
  match-Ends g expected cursor taken kept =
      match-on g (kind_matches expected (get_elem? p.tokens cursor)) cursor
        (match-Below expected cursor _ refl) taken kept

  keyword_name-Ends :
      (token : Token) (kind : TokenKind) (cursor n : ℕ)
      → left p cursor < n
      → Ends (Below p n Whatever) (keyword_name p token kind cursor)
  unfolding keyword_name
  keyword_name-Ends token kind cursor n h =
      Ends-if (is_value_keyword kind) _ _ cursor (done (tt, h)) (error_at-Ends token.span _ cursor)

  name_token-Ends :
      (token : Token) (kind : TokenKind) (cursor n : ℕ)
      → left p cursor < n
      → Ends (Below p n Whatever) (name_token p token kind cursor)
  unfolding name_token
  name_token-Ends token (TokenKind.identifier name) cursor n h = done (tt, h)
  name_token-Ends token kind cursor n h = keyword_name-Ends token kind cursor n h

  pub identifier-Ends :
      (cursor n : ℕ) → left p cursor ≤ n → Ends (Below p n Whatever) (parse_identifier p cursor)
  unfolding parse_identifier
  identifier-Ends cursor n h =
      Ends-bind _ (advance-Ends _ cursor n h)
        (λ token cursor' b. name_token-Ends token token.kind cursor' n b.1)

  below_u64-Fits : (o : Option ℕ) (n : ℕ) → below_u64 o ≡ some n → n < 2 ^ 64
  unfolding below_u64
  below_u64-Fits none n h = cc
  below_u64-Fits (some m) n h = ground (arith, ltb→lt m (2 ^ 64))

  u64_of-Fits : (value : String) (n : ℕ) → u64_of value ≡ some n → n < 2 ^ 64
  unfolding u64_of
  u64_of-Fits value n h = below_u64-Fits (unsigned_value value) n h

  in_range-Ends :
      (o : Option ℕ) (span : Span) (cursor n : ℕ)
      → ((v : ℕ) → o ≡ some v → v < 2 ^ 64)
      → left p cursor < n
      → Ends (Below p n (λ v. v < 2 ^ 64)) (in_range p o span cursor)
  unfolding in_range
  in_range-Ends (some v) span cursor n small h = done (small v refl, h)
  in_range-Ends none span cursor n small h = error_at-Ends span _ cursor

  pub parse_u64-Ends :
      (value : String) (span : Span) (cursor n : ℕ)
      → left p cursor < n
      → Ends (Below p n (λ v. v < 2 ^ 64)) (parse_u64 p value span cursor)
  unfolding parse_u64
  parse_u64-Ends value span cursor n h =
      in_range-Ends (u64_of value) span cursor n (u64_of-Fits value) h
