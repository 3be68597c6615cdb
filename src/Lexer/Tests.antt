-- ===== src/Lexer/Tests.antt =====
-- The lexer on small sources.
use Prim.Native.String
use kaspa_script.Prelude.{◌-◌, ◌≡◌, refl, [], ◌∷◌}
use kaspa_script.Prelude.Fault.{ok, err}
use kaspa_script.Syntax.Token.{new_span}
use kaspa_script.Lexer.Lex.{char_indices, error_at, lex_file, decode_string}
use kaspa_script.Lexer.Strings.{escape, decode_string-escape}
use kaspa_script.Lexer.Comments.{comment, plain, lex_file-open_comment}

inner : String.slice "\"a\\\"b\"" 1 (String.len "\"a\\\"b\"" - 1) ≡ escape "a\"b"
unfolding escape
inner = refl

-- The text `a"b`, as a literal.
decode_string-escape_example : decode_string "\"a\\\"b\"" ≡ ok "a\"b"
decode_string-escape_example = decode_string-escape "\"a\\\"b\"" "a\"b" inner

-- The source `/**/ // /**`: a comment that is closed, and a line comment.
comment_in_line :
    char_indices 0 "/**/ // /**"
    ≡ (0, 47)
      ∷ (1, 42)
      ∷ (2, 42)
      ∷ (3, 47)
      ∷ (4, 32)
      ∷ (5, 47)
      ∷ (6, 47)
      ∷ (7, 32)
      ∷ (8, 47)
      ∷ (9, 42)
      ∷ (10, 42)
      ∷ []
unfolding char_indices
comment_in_line = refl

lex_file-open_comment_example :
    lex_file (λ _. []) "/**/ // /**" "a.ks"
    ≡ err (error_at "/**/ // /**" "a.ks" (new_span 8 10) "unterminated block comment")
lex_file-open_comment_example =
    lex_file-open_comment (λ _. []) "/**/ // /**" "a.ks" _ ((10, 42) ∷ []) 8 9 comment_in_line
      (comment [] [] ((4, 32) ∷ (5, 47) ∷ (6, 47) ∷ (7, 32) ∷ []) 0 1 2 3 tt tt
        (plain (refl, (refl, (refl, tt)))))
      tt
