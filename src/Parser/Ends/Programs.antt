-- ===== src/Parser/Ends/Programs.antt =====
-- compiler/parser/src/parser.rs: the parsing of contracts and programs ends, and the numbers in them
-- fit in 64 bits.
use text.Mathlib.Text.{◌==◌ as str_eq}
use kaspa_script.Prelude.{
  ℕ, zero, suc, ◌+◌, ◌*◌, ◌^◌, ◌<◌, ◌≤◌, String, List, [], ◌∷◌, Option, none, some, All, All-append,
  arith,
}
use kaspa_script.Prelude.Fault.{Result, ok, err}
use kaspa_script.Syntax.Kind.{TokenKind, Token}
use kaspa_script.Syntax.Ast.{Ident, Contract, Program}
use kaspa_script.Lexer.Lex.{LexError, Raw, lex_file}
use kaspa_script.Semantic.Failure.{ParseError}
use kaspa_script.Parser.State.{Parser, Failure, failed, Step, check_exact, is_at_end}
use kaspa_script.Parser.Programs.{
  Params, depth_token, parse_params_entry, params_loop, parse_params_block, Members, later,
  add_params, members_loop, parse_contract, contracts_loop, enough, parse_program, result_of,
  parse_tokens, parse_file,
}
use kaspa_script.Parser.Ends.Reading.{
  Ends, done, stopped, left, Below, Ends-bind, Ends-if, error_at-Ends, error_here-Ends,
  advance-Ends, expect-Ends, match-Ends, identifier-Ends, parse_u64-Ends,
}
use kaspa_script.Parser.Ends.Expressions.{separator-Ends}
use kaspa_script.Parser.Ends.Statements.{SpendFits, type_token-Ends, spend-Ends}

abbrev pub DepthFits : Option ℕ → Type 0
DepthFits none = Unit
DepthFits (some n) = n < 2 ^ 64

abbrev ParamsFit : Params → Type 0
ParamsFit acc = DepthFits acc.finality_depth

abbrev MembersFit : Members → Type 0
MembersFit m = DepthFits m.finality_depth × All SpendFits m.spends

abbrev pub ContractFits : Contract → Type 0
ContractFits c = DepthFits c.finality_depth × All SpendFits c.spends

-- Every integer literal and finality depth is below 2^64.
abbrev pub ProgramFits : Program → Type 0
ProgramFits program = All ContractFits program.contracts

later-Fits : (new old : Option ℕ) → DepthFits new → DepthFits old → DepthFits (later new old)
unfolding later
later-Fits none old h k = k
later-Fits (some n) old h k = h

module _ (p : Parser) where
  depth_token-Ends :
      (token : Token) (kind : TokenKind) (cursor n : ℕ)
      → left p cursor < n
      → Ends (Below p n (λ v. v < 2 ^ 64)) (depth_token p token kind cursor)
  unfolding depth_token
  depth_token-Ends token (TokenKind.integer value) cursor n h =
      parse_u64-Ends p value token.span cursor n h
  depth_token-Ends token _ cursor n h = error_at-Ends p token.span "expected integer literal" cursor

  entry-Ends :
      (name : Ident) (acc : Params) (cursor n : ℕ)
      → ParamsFit acc
      → left p cursor ≤ n
      → Ends (Below p n ParamsFit) (parse_params_entry p name acc cursor)
  unfolding parse_params_entry
  entry-Ends name acc cursor n fits h =
      Ends-if (str_eq name.name "finality_depth") _ _ cursor
        (Ends-bind _ (advance-Ends p "expected integer literal" cursor n h) (λ token at b.
          Ends-bind _ (depth_token-Ends token token.kind at n b.1) (λ value at' b'. done b')))
        (Ends-bind _ (advance-Ends p "expected type" cursor n h) (λ token at b.
          Ends-bind _ (type_token-Ends p token token.kind at n b.1)
            (λ ty at' b'. done (fits, b'.1))))

  params_loop-Ends :
      (f : ℕ) (acc : Params) (cursor n : ℕ)
      → ParamsFit acc
      → left p cursor < n
      → left p cursor + 1 ≤ f
      → Ends (Below p n ParamsFit) (params_loop p f acc cursor)
  unfolding params_loop
  params_loop-Ends zero acc cursor n fits h enough = absurd (omega arith)
  params_loop-Ends (suc f) acc cursor n fits h enough =
      let l = left p cursor in
      Ends-if (check_exact p TokenKind.right_brace cursor) _ _ cursor (done (fits, h)) (
        Ends-bind _ (identifier-Ends p cursor l (omega arith)) (λ name c1 b1.
          Ends-bind _ (expect-Ends p TokenKind.colon "`:`" c1 l (omega arith)) (λ _ c2 b2.
            Ends-bind _ (entry-Ends name acc c2 l fits (omega arith)) (λ acc' c3 b3.
              Ends-bind _ (separator-Ends p TokenKind.right_brace "expected `,` or `}`" c3 l b3.1)
                (λ _ c4 b4. params_loop-Ends f acc' c4 n b3.0 (omega arith) (omega arith))))))

  params_block-Ends :
      (f cursor n : ℕ)
      → left p cursor ≤ n
      → left p cursor + 1 ≤ f
      → Ends (Below p n ParamsFit) (parse_params_block p f cursor)
  unfolding parse_params_block
  params_block-Ends f cursor n h enough =
      let l = left p cursor in
      Ends-bind _ (expect-Ends p TokenKind.left_brace "`{`" cursor l (omega arith)) (λ _ c1 b1.
        Ends-bind _ (params_loop-Ends f _ c1 l tt (omega arith) (omega arith)) (λ acc c2 b2.
          Ends-bind _ (expect-Ends p TokenKind.right_brace "`}`" c2 n (omega arith))
            (λ _ c3 b3. done (b2.0, b3.1))))

  members-Ends :
      (f : ℕ) (m : Members) (cursor n : ℕ)
      → MembersFit m
      → left p cursor < n
      → 8 * left p cursor + 1 ≤ f
      → Ends (Below p n MembersFit) (members_loop p f m cursor)
  unfolding members_loop add_params
  members-Ends zero m cursor n fits h enough = absurd (omega arith)
  members-Ends (suc f) m cursor n fits h enough =
      let l = left p cursor in
      Ends-if (check_exact p TokenKind.right_brace cursor) _ _ cursor (done (fits, h)) (
        Ends-if (is_at_end p cursor) _ _ cursor (error_here-Ends p _ cursor) (
          match-Ends p _ TokenKind.params cursor
            (λ at b.
              Ends-bind _ (params_block-Ends f at l (omega arith) (omega arith)) (λ parsed at' b'.
                members-Ends f (add_params parsed m) at' n
                  (later-Fits parsed.finality_depth m.finality_depth b'.0 fits.0, fits.1)
                  (omega arith) (omega arith)))
            (match-Ends p _ TokenKind.spend cursor
              (λ at b. Ends-bind _ (spend-Ends p f at l (omega arith) (omega arith)) (λ s at' b'.
                members-Ends f _ at' n
                  (fits.0, All-append SpendFits m.spends (s ∷ []) fits.1 (b'.0, tt)) (omega arith)
                  (omega arith)))
              (error_here-Ends p _ cursor))))

  contract-Ends :
      (f cursor n : ℕ)
      → left p cursor ≤ n
      → 8 * left p cursor ≤ f
      → Ends (Below p n ContractFits) (parse_contract p f cursor)
  unfolding parse_contract
  contract-Ends f cursor n h enough =
      let l = left p cursor in
      Ends-bind _ (expect-Ends p TokenKind.contract "`contract`" cursor l (omega arith))
        (λ word c1 b1. Ends-bind _ (identifier-Ends p c1 l (omega arith)) (λ name c2 b2.
          Ends-bind _ (expect-Ends p TokenKind.left_brace "`{`" c2 l (omega arith)) (λ _ c3 b3.
            Ends-bind _ (members-Ends f _ c3 l (tt, tt) (omega arith) (omega arith)) (λ m c4 b4.
              Ends-bind _ (expect-Ends p TokenKind.right_brace "`}`" c4 n (omega arith))
                (λ close c5 b5. done (b4.0, b5.1))))))

  contracts-Ends :
      (f cursor n : ℕ)
      → left p cursor < n
      → 8 * left p cursor + 1 ≤ f
      → Ends (Below p n (All ContractFits)) (contracts_loop p f cursor)
  unfolding contracts_loop
  contracts-Ends zero cursor n h enough = absurd (omega arith)
  contracts-Ends (suc f) cursor n h enough =
      Ends-if (is_at_end p cursor) _ _ cursor (done (tt, h)) (
        Ends-bind _ (contract-Ends f cursor (left p cursor) (omega arith) (omega arith)) (λ c at b.
          Ends-bind _ (contracts-Ends f at n (omega arith) (omega arith))
            (λ cs at' b'. done ((b.0, b'.0), b'.1))))

  program-Ends : Ends (Below p (suc (left p 0)) ProgramFits) (parse_program p 0)
  unfolding parse_program enough
  program-Ends =
      Ends-bind _ (contracts-Ends (enough p) 0 (suc (left p 0)) (omega arith) (omega arith))
        (λ cs at b. done b)

-- A program with numbers below 2^64, or a parse error.
pub data Parsed : Result Failure Program → Type 0 where
  program : {a : Program} → ProgramFits a → Parsed (ok a)
  refused : {e : ParseError} → Parsed (err (failed e))

result_of-Parsed :
    (p : Parser) (n : ℕ) {r : Step Program} → Ends (Below p n ProgramFits) r → Parsed (result_of r)
unfolding result_of
result_of-Parsed p n (done h) = program h.0
result_of-Parsed p n stopped = refused

parse_tokens-Parsed :
    (r : Result LexError (List Token)) (source file : String) → Parsed (parse_tokens r source file)
unfolding parse_tokens
parse_tokens-Parsed (err e) source file = refused
parse_tokens-Parsed (ok tokens) source file =
    let p : Parser = record { tokens = tokens; source = source; file = file } in
    result_of-Parsed p (suc (left p 0)) (program-Ends p)

-- The parser ends on any source, whatever the raw tokens are: with a parse error, or with a program in
-- which every integer literal and every finality depth is below 2^64.
pub parse_file-Parsed :
    (lexer : String → List Raw) (source file : String) → Parsed (parse_file lexer source file)
unfolding parse_file
parse_file-Parsed lexer source file = parse_tokens-Parsed (lex_file lexer source file) source file
