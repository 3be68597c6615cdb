-- ===== src/Parser/Tests.antt =====
-- The lexer and the parser on a small source.
use kaspa_script.Prelude.{◌<◌, arith, ◌≡◌, refl, ℕ, ◌+◌, String, List, [], ◌∷◌}
use kaspa_script.Prelude.Fault.{ok}
use kaspa_script.Syntax.Token.{new_span}
use kaspa_script.Syntax.Ast.{Expr, BinaryOp}
use kaspa_script.Lexer.Raw.{RawToken}
use kaspa_script.Lexer.Lex.{Raw}
use kaspa_script.Parser.State.{Parser}
use kaspa_script.Parser.Expressions.{integer_of, parse_expression}
use kaspa_script.Syntax.Kind.{TokenKind}
use kaspa_script.Parser.Grammar.{Binary}
use kaspa_script.Parser.Ends.Reading.{Ends, left}
use kaspa_script.Parser.Ends.Expressions.{Fits}
use kaspa_script.Parser.Sound.Expressions.{Stops, parse_expression-Binary}
use kaspa_script.Parser.Programs.{parse_file}
use kaspa_script.Parser.Ends.Programs.{Parsed, parse_file-Parsed}

-- The raw tokens, on a byte each.
abbrev numbered : ℕ → List RawToken → List Raw
numbered at [] = []
numbered at (raw ∷ raws) = (ok raw, new_span at (at + 1)) ∷ numbered (at + 1) raws

-- A contract with a spend of `require s.verify(o) && 1 + 2 + 3 >= 7;`
abbrev vault_tokens : List RawToken
vault_tokens =
    RawToken.contract
    ∷ RawToken.identifier "V"
    ∷ RawToken.left_brace
    ∷ RawToken.params
    ∷ RawToken.left_brace
    ∷ RawToken.identifier "o"
    ∷ RawToken.colon
    ∷ RawToken.public_key
    ∷ RawToken.comma
    ∷ RawToken.identifier "finality_depth"
    ∷ RawToken.colon
    ∷ RawToken.integer "10"
    ∷ RawToken.right_brace
    ∷ RawToken.spend
    ∷ RawToken.identifier "u"
    ∷ RawToken.left_paren
    ∷ RawToken.identifier "s"
    ∷ RawToken.colon
    ∷ RawToken.signature
    ∷ RawToken.right_paren
    ∷ RawToken.left_brace
    ∷ RawToken.require
    ∷ RawToken.identifier "s"
    ∷ RawToken.dot
    ∷ RawToken.identifier "verify"
    ∷ RawToken.left_paren
    ∷ RawToken.identifier "o"
    ∷ RawToken.right_paren
    ∷ RawToken.and_and
    ∷ RawToken.integer "1"
    ∷ RawToken.plus
    ∷ RawToken.integer "2"
    ∷ RawToken.plus
    ∷ RawToken.integer "3"
    ∷ RawToken.greater_equal
    ∷ RawToken.integer "7"
    ∷ RawToken.semicolon
    ∷ RawToken.right_brace
    ∷ RawToken.right_brace
    ∷ []

abbrev pub vault_lexer : String → List Raw
vault_lexer source = numbered 0 vault_tokens

parse_file-Parsed_example : Parsed (parse_file vault_lexer "contract" "vault.ks")
parse_file-Parsed_example = parse_file-Parsed vault_lexer "contract" "vault.ks"

-- `a + 1`
abbrev sum : Parser
sum = record {
  tokens =
      record { kind = TokenKind.identifier "a"; span = new_span 0 1 }
      ∷ record { kind = TokenKind.plus; span = new_span 2 3 }
      ∷ record { kind = TokenKind.integer "1"; span = new_span 4 5 }
      ∷ [];
  source = "a + 1";
  file = "sum.ks";
}

sum_parses :
    parse_expression sum 28 0
    ≡ ok (
      Expr.binary
          (Expr.ident (record { name = "a"; span = new_span 0 1 }))
          BinaryOp.add
          (Expr.integer 1 (new_span 4 5))
          (new_span 0 5),
      3,
    )
unfolding parse_expression integer_of
sum_parses = refl

parse_expression-Binary_example :
    Ends
      (λ e at. (Fits e × (left sum at < left sum 0)) × (Binary sum 0 0 e at × Stops sum 0 at))
      (parse_expression sum 28 0)
parse_expression-Binary_example = parse_expression-Binary sum 28 0 (omega arith)
