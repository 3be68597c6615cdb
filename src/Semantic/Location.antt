-- ===== src/Semantic/Location.antt =====
-- compiler/lexer/src/lexer.rs: `locate`.
use Prim.Native.Char.{code, len_utf8}
use kaspa_script.Prelude.{ℕ, ◌+◌, String, leb, ◌==◌, if◌then◌else◌}
use kaspa_script.Syntax.Token.{SourceLocation}

-- The loop over `char_indices`, with the byte at which the character stands.
unfoldable pub locate_loop : String → ℕ → ℕ → ℕ → ℕ → ℕ × ℕ
locate_loop String.[] byte offset line column = (line, column)
locate_loop (String.◌∷◌ c s) byte offset line column =
    let newline = code c == 10 in
    let rest =
      locate_loop s (byte + len_utf8 c) offset (if newline then line + 1 else line)
        (if newline then 1 else column + 1) in
    if leb offset byte then (line, column) else rest

unfoldable pub locate : String → String → ℕ → SourceLocation
unfolding locate_loop
locate source file offset =
    let (line, column) = locate_loop source 0 offset 1 1 in
    record { file = file; line = line; column = column }
