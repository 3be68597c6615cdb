-- ===== src/Lexer/Lex.antt =====
-- compiler/lexer/src/lexer.rs: the lexer's own code. The token rules are a `logos` derive: the stream
-- of raw tokens that it makes from a source is a parameter.
use Prim.Native.Char.{Char, nul, code, len_utf8}
use Prim.Native.String
use kaspa_script.Prelude.{
  ℕ, ◌+◌, String, Bool, true, false, List, [], ◌∷◌, ◌++◌, Option, none, some, ◌==◌, ◌&&◌, ◌||◌, ◌-◌,
  if◌then◌else◌,
}
use kaspa_script.Prelude.Fault.{Result, ok, err, ◌>>=◌}
use kaspa_script.Syntax.Token.{Span, new_span}
use kaspa_script.Syntax.Kind.{TokenKind, Token}
use kaspa_script.Semantic.Location.{locate}
use kaspa_script.Lexer.Raw.{RawToken, into_token_kind}

pub record LexError : Type 0 where
  pub file : String
  pub line : ℕ
  pub column : ℕ
  pub span : Span
  pub message : String

pub data LogosError : Type 0 where
  unexpected : LogosError
  invalid_escape : Char → LogosError

abbrev pub Raw : Type 0
Raw = Result LogosError RawToken × Span

unfoldable pub error_at : String → String → Span → String → LexError
unfolding locate
error_at source file span message =
    let at = locate source file span.start in
    record { file = at.file; line = at.line; column = at.column; span = span; message = message }

-- `char_indices`: each character's code, with the byte at which it stands.
unfoldable pub char_indices : ℕ → String → List (ℕ × ℕ)
char_indices byte String.[] = []
char_indices byte (String.◌∷◌ c s) = (byte, code c) ∷ char_indices (byte + len_utf8 c) s

-- The start of the block comment that is left open, if there is one. The first argument is the
-- start of the comment that is open. Two characters are read at a time, the pair `/*` or `*/`.
unfoldable pub open_comment : Option ℕ → List (ℕ × ℕ) → Option ℕ
open_comment start [] = start
open_comment start (x ∷ []) = start
open_comment none ((o, c) ∷ x ∷ rest) = elim (c == 47 && x.1 == 42) [
  | true ↦ open_comment (some o) rest
  | false ↦ open_comment none (x ∷ rest)
]
open_comment (some start) ((o, c) ∷ x ∷ rest) = elim (c == 42 && x.1 == 47) [
  | true ↦ open_comment none rest
  | false ↦ open_comment (some start) (x ∷ rest)
]

unfoldable pub demand_closed : String → String → String → ℕ → Option ℕ → Result LexError (Unit {0})
unfolding error_at
demand_closed message source file width none = ok tt
demand_closed message source file width (some start) =
    err (error_at source file (new_span start (start + width)) message)

unfoldable pub detect_unterminated_block_comment : String → String → Result LexError (Unit {0})
unfolding demand_closed open_comment char_indices
detect_unterminated_block_comment source file =
    demand_closed "unterminated block comment" source file 2
      (open_comment none (char_indices 0 source))

-- The state of the loop: outside strings, or in the one that starts at a byte, after a `\` or not.
pub data Quoting : Type 0 where
  outside : Quoting
  inside escaped : ℕ → Quoting

-- The start of the string that a line's end, or the source's, leaves open.
unfoldable pub open_string : Quoting → List (ℕ × ℕ) → Option ℕ
open_string outside [] = none
open_string (inside start) [] = some start
open_string (escaped start) [] = some start
open_string outside ((offset, c) ∷ rest) =
    open_string (if c == 34 then inside offset else outside) rest
open_string (escaped start) ((offset, c) ∷ rest) = open_string (inside start) rest
open_string (inside start) ((offset, c) ∷ rest) =
    let next = if c == 92 then escaped start else if c == 34 then outside else inside start in
    let more = open_string next rest in if c == 10 then some start else more

unfoldable pub detect_unterminated_string : String → String → Result LexError (Unit {0})
unfolding demand_closed open_string char_indices
detect_unterminated_string source file =
    demand_closed "unterminated string" source file 1 (open_string outside (char_indices 0 source))

-- The character that stands after a `\` in a string, and what the two mean.
unfoldable pub unescape : Char → Result LogosError Char
unescape c =
    if code c == 34 || code c == 92 || code c == 47
    then ok c
    else if code c == 110
    then ok "\n"
    else if code c == 114
    then ok "\r"
    else if code c == 116
    then ok "\t"
    else err (LogosError.invalid_escape c)

-- `decoded.push(c)`, in front of what the rest decodes to.
unfoldable pub push : Char → Result LogosError String → Result LogosError String
push c rest = do decoded ← rest; ok (String.◌∷◌ c decoded)

-- The loop over the characters; the first argument says whether the last one was a `\`.
unfoldable pub decode_loop : Bool → String → Result LogosError String
unfolding unescape push
decode_loop false String.[] = ok ""
decode_loop true String.[] = err (LogosError.invalid_escape "\\")
decode_loop true (String.◌∷◌ c s) = do ch ← unescape c; push ch (decode_loop false s)
decode_loop false (String.◌∷◌ c s) =
    let rest = decode_loop (code c == 92) s in if code c == 92 then rest else push c rest

unfoldable pub decode_string : String → Result LogosError String
unfolding decode_loop
decode_string slice = decode_loop false (String.slice slice 1 (String.len slice - 1))

-- `source[span.start..span.end].chars().next().unwrap_or('\0')`, as a text
unfoldable pub first_char : String → String
first_char String.[] = String.◌∷◌ nul ""
first_char (String.◌∷◌ c s) = String.◌∷◌ c ""

unfoldable pub raw_error : String → String → LogosError → Span → LexError
unfolding error_at first_char
raw_error source file (LogosError.invalid_escape ch) span =
    error_at source file span (String.◌++◌ "invalid escape sequence \\" (String.◌∷◌ ch ""))
raw_error source file LogosError.unexpected span = error_at source file span (
    String.◌++◌ "unexpected character `"
      (String.◌++◌ (first_char (String.slice source span.start span.end)) "`"))

unfoldable pub token_of : Option TokenKind → Span → List Token
token_of none span = []
token_of (some kind) span = record { kind = kind; span = span } ∷ []

unfoldable pub collect_tokens : String → String → List Raw → Result LexError (List Token)
unfolding raw_error token_of into_token_kind
collect_tokens source file [] = ok []
collect_tokens source file ((err e, span) ∷ raws) = err (raw_error source file e span)
collect_tokens source file ((ok raw, span) ∷ raws) = do
  tokens ← collect_tokens source file raws
  ok (token_of (into_token_kind raw) span ++ tokens)

unfoldable pub lex_file : (String → List Raw) → String → String → Result LexError (List Token)
unfolding detect_unterminated_block_comment detect_unterminated_string collect_tokens
lex_file lexer source file = do
  _ ← detect_unterminated_block_comment source file
  _ ← detect_unterminated_string source file
  collect_tokens source file (lexer source)
