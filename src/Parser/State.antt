-- ===== src/Parser/State.antt =====
-- compiler/parser/src/parser.rs: the parser's state, and the steps that read one token. `Parser` holds
-- what the parser never writes; its cursor is passed in and returned. A parser that recurs has fuel,
-- and gives `out_of_fuel` where the fuel ends.
use Prim.Native.Char.{code}
use Prim.Native.String
use kaspa_script.Prelude.{
  ℕ, ◌+◌, ◌*◌, ◌-◌, ◌^◌, String, Bool, true, false, List, [], ◌∷◌, Option, none, some, length,
  get_elem?, leb, ltb, ◌==◌, ◌&&◌, if◌then◌else◌,
}
use kaspa_script.Prelude.Fault
use kaspa_script.Prelude.Fault.{Result, ok, err}
use kaspa_script.Syntax.Token.{Span, new_span}
use kaspa_script.Syntax.Kind.{TokenKind, Token, discriminant, kind_text}
use kaspa_script.Syntax.Ast.{Ident, BinaryOp}
use kaspa_script.Semantic.Failure.{ParseError}
use kaspa_script.Semantic.Location.{locate}

pub record Parser : Type 0 where
  pub tokens : List Token
  pub source : String
  pub file : String

pub data Failure : Type 0 where
  out_of_fuel : Failure
  failed : ParseError → Failure

-- A result, with the cursor after it.
abbrev pub Step : Type 0 → Type 0
Step A = Result Failure (A × ℕ)

abbrev pub Parse : Type 0 → Type 0
Parse A = ℕ → Step A

module _ {A B : Type 0} where
  infixl 5 ◌>>=◌ ◌>>◌
  abbrev pub ◌>>=◌ : Parse A → (A → Parse B) → Parse B
  ◌>>=◌ m f cursor = Fault.◌>>=◌ (m cursor) (λ (a, cursor'). f a cursor')

  abbrev pub ◌>>◌ : Parse A → Parse B → Parse B
  ◌>>◌ m k cursor = Fault.◌>>=◌ (m cursor) (λ (a, cursor'). k cursor')

abbrev pub pure : {A : Type 0} → A → Parse A
pure a cursor = ok (a, cursor)

unfoldable pub discriminant_eq : TokenKind → TokenKind → Bool
unfolding discriminant
discriminant_eq left right = discriminant left == discriminant right

unfoldable pub is_value_keyword : TokenKind → Bool
is_value_keyword TokenKind.covenant = true
is_value_keyword TokenKind.covenant_id = true
is_value_keyword TokenKind.zk_verify = true
is_value_keyword TokenKind.finality_depth = true
is_value_keyword TokenKind.sequencing = true
is_value_keyword TokenKind.multisig = true
is_value_keyword TokenKind.input_builtin = true
is_value_keyword TokenKind.output_builtin = true
is_value_keyword TokenKind.block = true
is_value_keyword _ = false

unfoldable pub token_text : TokenKind → String
token_text TokenKind.covenant = "covenant"
token_text TokenKind.covenant_id = "covenant_id"
token_text TokenKind.zk_verify = "zk_verify"
token_text TokenKind.finality_depth = "finality_depth"
token_text TokenKind.sequencing = "sequencing"
token_text TokenKind.multisig = "multisig"
token_text TokenKind.input_builtin = "input"
token_text TokenKind.output_builtin = "output"
token_text TokenKind.block = "block"
token_text _ = "<token>"

unfoldable pub display_kind : TokenKind → String
unfolding kind_text
display_kind (TokenKind.identifier value) = String.◌++◌ "identifier `" (String.◌++◌ value "`")
display_kind (TokenKind.integer value) = String.◌++◌ "integer `" (String.◌++◌ value "`")
display_kind (TokenKind.string _) = "string"
display_kind other = kind_text other

-- The value of a text of decimal digits, read after a number.
unfoldable pub digits_value : ℕ → String → Option ℕ
digits_value n String.[] = some n
digits_value n (String.◌∷◌ c s) =
    let more = digits_value (n * 10 + (code c - 48)) s in
    if leb 48 (code c) && leb (code c) 57 then more else none

unfoldable pub below_u64 : Option ℕ → Option ℕ
below_u64 none = none
below_u64 (some n) = if ltb n (2 ^ 64) then some n else none

-- Digits, at least one, with a `+` in front or without.
unfoldable pub unsigned_value : String → Option ℕ
unfolding digits_value
unsigned_value String.[] = none
unsigned_value (String.◌∷◌ c String.[]) = digits_value 0 (String.◌∷◌ c "")
unsigned_value (String.◌∷◌ c s) =
    if code c == 43 then digits_value 0 s else digits_value 0 (String.◌∷◌ c s)

-- `value.parse::<u64>()`
unfoldable pub u64_of : String → Option ℕ
unfolding unsigned_value below_u64
u64_of value = below_u64 (unsigned_value value)

unfoldable pub operator_of : TokenKind → Option (BinaryOp × ℕ)
operator_of TokenKind.or_or = some (BinaryOp.or, 1)
operator_of TokenKind.and_and = some (BinaryOp.and, 2)
operator_of TokenKind.equal_equal = some (BinaryOp.equal, 3)
operator_of TokenKind.bang_equal = some (BinaryOp.not_equal, 3)
operator_of TokenKind.greater = some (BinaryOp.greater, 4)
operator_of TokenKind.greater_equal = some (BinaryOp.greater_equal, 4)
operator_of TokenKind.less = some (BinaryOp.less, 4)
operator_of TokenKind.less_equal = some (BinaryOp.less_equal, 4)
operator_of TokenKind.plus = some (BinaryOp.add, 5)
operator_of TokenKind.minus = some (BinaryOp.sub, 5)
operator_of TokenKind.star = some (BinaryOp.mul, 6)
operator_of TokenKind.slash = some (BinaryOp.div, 6)
operator_of TokenKind.percent = some (BinaryOp.modulo, 6)
operator_of _ = none

unfoldable pub span_or : Option Token → Span → Span
span_or none span = span
span_or (some token) span = token.span

unfoldable pub last : List Token → Option Token
last [] = none
last (t ∷ []) = some t
last (t ∷ u ∷ ts) = last (u ∷ ts)

unfoldable pub kind_matches : TokenKind → Option Token → Bool
unfolding discriminant_eq
kind_matches expected none = false
kind_matches expected (some token) = discriminant_eq token.kind expected

unfoldable pub operator_at : Option Token → Option (BinaryOp × ℕ)
unfolding operator_of
operator_at none = none
operator_at (some token) = operator_of token.kind

module _ (p : Parser) where
  unfoldable pub error_at : {A : Type 0} → Span → String → Parse A
  unfolding locate
  error_at span message cursor =
      let at = locate p.source p.file span.start in
      err (
        failed record {
          file = at.file;
          line = at.line;
          column = at.column;
          span = span;
          message = message;
        })

  unfoldable pub error_here : {A : Type 0} → String → Parse A
  unfolding error_at span_or last
  error_here message cursor =
      error_at (span_or (get_elem? p.tokens cursor) (span_or (last p.tokens) (new_span 0 0)))
        message cursor

  unfoldable pub take_token : Option Token → String → Parse Token
  unfolding error_here
  take_token none message cursor = error_here message cursor
  take_token (some token) message cursor = ok (token, cursor + 1)

  unfoldable pub advance_or_error : String → Parse Token
  unfolding take_token
  advance_or_error message cursor = take_token (get_elem? p.tokens cursor) message cursor

  unfoldable pub check_exact : TokenKind → ℕ → Bool
  unfolding kind_matches
  check_exact expected cursor = kind_matches expected (get_elem? p.tokens cursor)

  unfoldable pub match_exact : TokenKind → Parse Bool
  unfolding check_exact
  match_exact expected cursor =
      if check_exact expected cursor then ok (true, cursor + 1) else ok (false, cursor)

  unfoldable pub expect_exact : TokenKind → String → Parse Token
  unfolding advance_or_error error_at discriminant_eq display_kind
  expect_exact expected label = do
    token ← advance_or_error (String.◌++◌ "expected " label)
    if discriminant_eq token.kind expected
        then pure token
        else error_at token.span (
            String.◌++◌ "expected "
              (String.◌++◌ label (String.◌++◌ " found " (display_kind token.kind))))

  unfoldable pub previous_span : ℕ → Span
  unfolding span_or
  previous_span cursor = span_or (get_elem? p.tokens (cursor - 1)) (new_span 0 0)

  unfoldable pub is_at_end : ℕ → Bool
  is_at_end cursor = leb (length p.tokens) cursor

  unfoldable pub in_range : Option ℕ → Span → Parse ℕ
  unfolding error_at
  in_range (some n) span = pure n
  in_range none span = error_at span "integer literal exceeds u64 range"

  unfoldable pub parse_u64 : String → Span → Parse ℕ
  unfolding u64_of in_range
  parse_u64 value span = in_range (u64_of value) span

  unfoldable pub current_binary_op : ℕ → Option (BinaryOp × ℕ)
  unfolding operator_at
  current_binary_op cursor = operator_at (get_elem? p.tokens cursor)

  -- The name of a keyword that may stand for one.
  unfoldable pub keyword_name : Token → TokenKind → Parse Ident
  unfolding is_value_keyword token_text error_at
  keyword_name token kind =
      if is_value_keyword kind
      then pure record { name = token_text kind; span = token.span }
      else error_at token.span "expected identifier"

  unfoldable pub name_token : Token → TokenKind → Parse Ident
  name_token token (TokenKind.identifier name) = pure record { name = name; span = token.span }
  name_token token kind = keyword_name token kind

  unfoldable pub parse_identifier : Parse Ident
  unfolding advance_or_error name_token
  parse_identifier = do token ← advance_or_error "expected identifier"; name_token token token.kind
