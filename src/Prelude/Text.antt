-- ===== src/Prelude/Text.antt =====
-- `format!` of a number, and the hexadecimal digits.
use Prim.Native.Char.{Char, code}
use Prim.Native.String
use Prim.Native.String.{String}
use Prim.Native.Nat.{ℕ, zero, suc, ◌+◌, ◌/◌, ◌%◌}
use mathlib.Core.Bool.{Bool, true, false}
use text.Mathlib.Text.{◌==◌}
use text.Mathlib.TextEquality.{eq_iff}
use mathlib.Core.Path.{◌≡◌}
use mathlib.Core.List.{List, [], ◌∷◌, ◌++◌}
use native.Mathlib.Omega.{arith}
use kaspa_script.Prelude.Tests.{ltb, if◌then◌else◌}

-- `HEX[d]`; its first ten places are the decimal digits.
abbrev pub digit : ℕ → Char
digit d = String.char_at "0123456789abcdef" d

-- The fuel is the number itself, which is more than its digits.
unfoldable pub decimal_loop : ℕ → ℕ → String → String
decimal_loop zero n acc = acc
decimal_loop (suc f) n acc =
    let text = String.◌∷◌ (digit (n % 10)) acc in
    let more = decimal_loop f (n / 10) text in if ltb n 10 then text else more

-- `format!("{n}")`
unfoldable pub decimal : ℕ → String
unfolding decimal_loop
decimal n = decimal_loop (suc n) n ""

-- The code points of a text.
unfoldable pub codes : String → List ℕ
codes String.[] = []
codes (String.◌∷◌ c s) = code c ∷ codes s

-- The UTF-8 form of a code point.
unfoldable pub utf8 : ℕ → List ℕ
utf8 c =
    if ltb c 0x80
    then c ∷ []
    else if ltb c 0x800
    then (0xc0 + c / 0x40) ∷ (0x80 + c % 0x40) ∷ []
    else if ltb c 0x1_0000
    then (0xe0 + c / 0x1000) ∷ (0x80 + c / 0x40 % 0x40) ∷ (0x80 + c % 0x40) ∷ []
    else (0xf0 + c / 0x4_0000)
      ∷ (0x80 + c / 0x1000 % 0x40)
      ∷ (0x80 + c / 0x40 % 0x40)
      ∷ (0x80 + c % 0x40)
      ∷ []

utf8_all : List ℕ → List ℕ
utf8_all [] = []
utf8_all (c ∷ cs) = utf8 c ++ utf8_all cs

-- `text.as_bytes()`
unfoldable pub as_bytes : String → List ℕ
unfolding codes utf8 utf8_all
as_bytes s = utf8_all (codes s)

-- `set.contains(text)`, for a set of texts held as a list
unfoldable pub member : String → List String → Bool
member s [] = false
member s (t ∷ ts) = if s == t then true else member s ts

-- No text is there twice.
abbrev pub Distinct : List String → Type 0
Distinct [] = Unit
Distinct (s ∷ ss) = (member s ss ≡ false) × Distinct ss

pub ==-false_sym : (s t : String) → (s == t) ≡ false → (t == s) ≡ false
==-false_sym s t h = ground (arith, eq_iff s t, eq_iff t s)

pub ==-sym : (s t : String) → (s == t) ≡ (t == s)
==-sym s t = ground (arith, eq_iff s t, eq_iff t s)
