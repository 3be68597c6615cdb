-- ===== src/Lexer/Strings.antt =====
-- compiler/lexer/src/lexer.rs: string literals read back.
use Prim.Native.Char.{Char, code}
use Prim.Native.String
use kaspa_script.Prelude.{
  ◌-◌, ◌≡◌, refl, String, true, false, ◌==◌, ◌||◌, Bool-cases, inl, inr, arith, if◌then◌else◌,
}
use kaspa_script.Prelude.Fault.{ok}
use kaspa_script.Lexer.Lex.{unescape, decode_loop, decode_string}

-- A `\` in front of each quote and each `\`.
unfoldable pub escape : String → String
escape String.[] = ""
escape (String.◌∷◌ c s) =
    let rest = escape s in
    if code c == 34 || code c == 92 then String.◌∷◌ "\\" (String.◌∷◌ c rest) else String.◌∷◌ c rest

unescape-marked : (c : Char) → (code c == 34 || code c == 92) ≡ true → unescape c ≡ ok c
unfolding unescape
unescape-marked c h = elim (Bool-cases (code c == 34)) [
  | inl quote ↦ rw quote refl
  | inr other ↦ rw (other, rw other at h) refl
]

plain-ne : (c : Char) → (code c == 34 || code c == 92) ≡ false → (code c == 92) ≡ false
plain-ne c h = ground arith

decode-plain :
    (c : Char) (s r : String)
    → (code c == 92) ≡ false
    → decode_loop false s ≡ ok r
    → decode_loop false (String.◌∷◌ c s) ≡ ok (String.◌∷◌ c r)
unfolding decode_loop
decode-plain c s r h k = rw (h, k) refl

decode-escape : (s : String) → decode_loop false (escape s) ≡ ok s
unfolding decode_loop escape
decode-escape String.[] = refl
decode-escape (String.◌∷◌ c s) = elim (Bool-cases (code c == 34 || code c == 92)) [
  | inl marked ↦ rw (marked, unescape-marked c marked, decode-escape s) refl
  | inr plain ↦ rw plain (decode-plain c (escape s) s (plain-ne c plain) (decode-escape s))
]

-- A string literal whose inner text is some text with a `\` before each quote and each `\` decodes to
-- that text.
pub decode_string-escape :
    (slice s : String)
    → String.slice slice 1 (String.len slice - 1) ≡ escape s
    → decode_string slice ≡ ok s
unfolding decode_string
decode_string-escape slice s h = rw h (decode-escape s)
