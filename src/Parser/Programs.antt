-- ===== src/Parser/Programs.antt =====
-- compiler/parser/src/parser.rs: the parsing of parameter blocks, contracts and programs.
-- Each loop has fuel of its own, and passes it on to what it calls.
use text.Mathlib.Text.{◌==◌ as str_eq}
use kaspa_script.Prelude.{
  ℕ, zero, suc, ◌+◌, ◌*◌, String, List, [], ◌∷◌, ◌++◌, Option, none, some, length, if◌then◌else◌,
}
use kaspa_script.Prelude.Fault.{Result, ok, err}
use kaspa_script.Syntax.Token.{new_span}
use kaspa_script.Syntax.Kind.{TokenKind, Token}
use kaspa_script.Syntax.Ast.{Ident, Param, Spend, Contract, Program}
use kaspa_script.Semantic.Failure.{ParseError}
use kaspa_script.Lexer.Lex.{LexError, Raw, lex_file}
use kaspa_script.Parser.State.{
  Parser, Failure, out_of_fuel, failed, Parse, ◌>>=◌, pure, error_at, error_here, advance_or_error,
  check_exact, match_exact, expect_exact, previous_span, is_at_end, parse_u64, parse_identifier,
}
use kaspa_script.Parser.Expressions.{separator}
use kaspa_script.Parser.Statements.{type_token, parse_spend}

-- The two locals of a params block.
pub record Params : Type 0 where
  pub params : List Param
  pub finality_depth : Option ℕ

abbrev pub no_params : Params
no_params = record { params = []; finality_depth = none }

unfoldable pub depth_token : Parser → Token → TokenKind → Parse ℕ
unfolding parse_u64 error_at
depth_token p token (TokenKind.integer value) = parse_u64 p value token.span
depth_token p token _ = error_at p token.span "expected integer literal"

-- What stands after `name:`, which is a finality depth or a parameter's type.
unfoldable pub parse_params_entry : Parser → Ident → Params → Parse Params
unfolding advance_or_error depth_token type_token previous_span
parse_params_entry p name acc =
    if str_eq name.name "finality_depth"
    then (do
      token ← advance_or_error p "expected integer literal"
      value ← depth_token p token token.kind
      pure (record acc { finality_depth = some value }))
    else (do
      token ← advance_or_error p "expected type"
      ty ← type_token p token token.kind
      (λ cursor. ok (
        record acc {
          params =
              acc.params
              ++ record {
                name = name;
                ty = ty;
                span = new_span name.span.start (previous_span p cursor).end;
              }
                ∷ [];
        },
        cursor,
      )))

unfoldable pub params_loop : Parser → ℕ → Params → Parse Params
unfolding check_exact parse_identifier expect_exact parse_params_entry separator
params_loop p zero acc cursor = err out_of_fuel
params_loop p (suc f) acc cursor =
    (if check_exact p TokenKind.right_brace cursor then pure acc else (do
      name ← parse_identifier p
      _ ← expect_exact p TokenKind.colon "`:`"
      acc' ← parse_params_entry p name acc
      _ ← separator p TokenKind.right_brace "expected `,` or `}`"
      params_loop p f acc'))
      cursor

unfoldable pub parse_params_block : Parser → ℕ → Parse Params
unfolding expect_exact params_loop
parse_params_block p f = do
  _ ← expect_exact p TokenKind.left_brace "`{`"
  acc ← params_loop p f no_params
  _ ← expect_exact p TokenKind.right_brace "`}`"
  pure acc

-- The three locals of a contract.
pub record Members : Type 0 where
  pub params : List Param
  pub finality_depth : Option ℕ
  pub spends : List Spend

abbrev pub no_members : Members
no_members = record { params = []; finality_depth = none; spends = [] }

unfoldable pub later : Option ℕ → Option ℕ → Option ℕ
later none old = old
later (some n) old = some n

unfoldable pub add_params : Params → Members → Members
unfolding later
add_params parsed m = record m {
  params = m.params ++ parsed.params;
  finality_depth = later parsed.finality_depth m.finality_depth;
}

unfoldable pub members_loop : Parser → ℕ → Members → Parse Members
unfolding check_exact is_at_end error_here match_exact parse_params_block parse_spend add_params
members_loop p zero m cursor = err out_of_fuel
members_loop p (suc f) m cursor =
    (if check_exact p TokenKind.right_brace cursor
        then pure m
        else if is_at_end p cursor
        then error_here p "expected `}`"
        else (do
          is_params ← match_exact p TokenKind.params
          if is_params
              then (do parsed ← parse_params_block p f; members_loop p f (add_params parsed m))
              else (do
                is_spend ← match_exact p TokenKind.spend
                if is_spend
                    then (do
                      s ← parse_spend p f
                      members_loop p f (record m { spends = m.spends ++ s ∷ [] }))
                    else error_here p "expected `params`, `spend`, or `}`")))
      cursor

unfoldable pub parse_contract : Parser → ℕ → Parse Contract
unfolding expect_exact parse_identifier members_loop
parse_contract p f = do
  word ← expect_exact p TokenKind.contract "`contract`"
  name ← parse_identifier p
  _ ← expect_exact p TokenKind.left_brace "`{`"
  m ← members_loop p f no_members
  close ← expect_exact p TokenKind.right_brace "`}`"
  pure record {
    name = name;
    params = m.params;
    finality_depth = m.finality_depth;
    spends = m.spends;
    span = new_span word.span.start close.span.end;
  }

unfoldable pub contracts_loop : Parser → ℕ → Parse (List Contract)
unfolding is_at_end parse_contract
contracts_loop p zero cursor = err out_of_fuel
contracts_loop p (suc f) cursor =
    (if is_at_end p cursor
        then pure []
        else (do c ← parse_contract p f; cs ← contracts_loop p f; pure (c ∷ cs)))
      cursor

-- Eight units of fuel for a token.
unfoldable pub enough : Parser → ℕ
enough p = 8 * length p.tokens + 8

unfoldable pub parse_program : Parser → Parse Program
unfolding contracts_loop enough
parse_program p = do contracts ← contracts_loop p (enough p); pure record { contracts = contracts }

-- `ParseError::from`, for an error of the lexer
unfoldable pub from_lex : LexError → ParseError
from_lex e = record {
  file = e.file;
  line = e.line;
  column = e.column;
  span = e.span;
  message = e.message;
}

-- The result, without the cursor.
unfoldable pub result_of : {A : Type 0} → Result Failure (A × ℕ) → Result Failure A
result_of (ok (a, cursor)) = ok a
result_of (err e) = err e

unfoldable pub parse_tokens :
    Result LexError (List Token) → String → String → Result Failure Program
unfolding parse_program from_lex result_of
parse_tokens (err e) source file = err (failed (from_lex e))
parse_tokens (ok tokens) source file =
    result_of (parse_program record { tokens = tokens; source = source; file = file } 0)

unfoldable pub parse_file : (String → List Raw) → String → String → Result Failure Program
unfolding lex_file parse_tokens
parse_file lexer source file = parse_tokens (lex_file lexer source file) source file
