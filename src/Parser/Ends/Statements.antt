-- ===== src/Parser/Ends/Statements.antt =====
-- compiler/parser/src/parser.rs: the parsing of statements and spends ends, and the literals in them
-- fit in 64 bits.
use kaspa_script.Prelude.{ℕ, zero, suc, ◌+◌, ◌*◌, ◌<◌, ◌≤◌, All, arith}
use kaspa_script.Syntax.Token.{Span}
use kaspa_script.Syntax.Kind.{TokenKind, Token}
use kaspa_script.Syntax.Ast.{Expr, Stmt, let_stmt, require, return, Spend}
use kaspa_script.Parser.State.{Parser, check_exact, is_at_end}
use kaspa_script.Parser.Expressions.{parse_expression}
use kaspa_script.Parser.Statements.{
  finish_statement, finish_let, parse_statement, parse_body, type_token, parse_typed_param,
  parse_typed_params, parse_spend,
}
use kaspa_script.Parser.Ends.Reading.{
  Ends, done, left, Below, Whatever, Ends-bind, Ends-if, error_at-Ends, error_here-Ends,
  advance-Ends, expect-Ends, match-Ends, identifier-Ends,
}
use kaspa_script.Parser.Ends.Expressions.{Fits, separator-Ends, precedence-Ends}

abbrev pub StmtFits : Stmt → Type 0
StmtFits (let_stmt _ e _) = Fits e
StmtFits (require e _) = Fits e
StmtFits (return e _) = Fits e

abbrev pub SpendFits : Spend → Type 0
SpendFits s = All StmtFits s.body

module _ (p : Parser) where
  expression-Ends :
      (f cursor n : ℕ)
      → left p cursor ≤ n
      → 8 * left p cursor + 4 ≤ f
      → Ends (Below p n Fits) (parse_expression p f cursor)
  unfolding parse_expression
  expression-Ends f cursor n h enough = precedence-Ends p f 0 cursor n h enough

  finish_statement-Ends :
      (f : ℕ) (build : Expr → Span → Stmt) (cursor n : ℕ)
      → ((e : Expr) (span : Span) → Fits e → StmtFits (build e span))
      → left p cursor ≤ n
      → 8 * left p cursor + 4 ≤ f
      → Ends (Below p n StmtFits) (finish_statement p f build cursor)
  unfolding finish_statement
  finish_statement-Ends f build cursor n fits h enough =
      Ends-bind _ (expression-Ends f cursor (left p cursor) (omega arith) enough) (λ e at b.
        Ends-bind _ (expect-Ends p TokenKind.semicolon "`;`" at n (omega arith))
          (λ close at' b'. done (fits e _ b.0, b'.1)))

  finish_let-Ends :
      (f cursor n : ℕ)
      → left p cursor ≤ n
      → 8 * left p cursor + 4 ≤ f
      → Ends (Below p n StmtFits) (finish_let p f cursor)
  unfolding finish_let
  finish_let-Ends f cursor n h enough =
      Ends-bind _ (identifier-Ends p cursor (left p cursor) (omega arith)) (λ name at b.
        Ends-bind _ (expect-Ends p TokenKind.equal "`=`" at (left p at) (omega arith)) (λ _ at' b'.
          Ends-bind _ (expression-Ends f at' (left p at') (omega arith) (omega arith))
            (λ e at'' b''.
              Ends-bind _ (expect-Ends p TokenKind.semicolon "`;`" at'' n (omega arith))
                (λ close at''' c. done (b''.0, c.1)))))

  statement-Ends :
      (f cursor n : ℕ)
      → left p cursor ≤ n
      → 8 * left p cursor ≤ f
      → Ends (Below p n StmtFits) (parse_statement p f cursor)
  unfolding parse_statement
  statement-Ends f cursor n h enough =
      match-Ends p _ TokenKind.let_word cursor
        (λ at b. finish_let-Ends f at n (omega arith) (omega arith))
        (match-Ends p _ TokenKind.require cursor
          (λ at b. finish_statement-Ends f require at n (λ e s k. k) (omega arith) (omega arith))
          (match-Ends p _ TokenKind.return_word cursor
            (λ at b. finish_statement-Ends f return at n (λ e s k. k) (omega arith) (omega arith))
            (error_here-Ends p _ cursor)))

  body-Ends :
      (f cursor n : ℕ)
      → left p cursor < n
      → 8 * left p cursor + 1 ≤ f
      → Ends (Below p n (All StmtFits)) (parse_body p f cursor)
  unfolding parse_body
  body-Ends zero cursor n h enough = absurd (omega arith)
  body-Ends (suc f) cursor n h enough =
      Ends-if (check_exact p TokenKind.right_brace cursor) _ _ cursor (done (tt, h)) (
        Ends-if (is_at_end p cursor) _ _ cursor (error_here-Ends p _ cursor) (
          Ends-bind _ (statement-Ends f cursor (left p cursor) (omega arith) (omega arith))
            (λ s at b.
              Ends-bind _ (body-Ends f at n (omega arith) (omega arith))
                (λ ss at' b'. done ((b.0, b'.0), b'.1)))))

  pub type_token-Ends :
      (token : Token) (kind : TokenKind) (cursor n : ℕ)
      → left p cursor < n
      → Ends (Below p n Whatever) (type_token p token kind cursor)
  unfolding type_token
  type_token-Ends token (TokenKind.type ty) cursor n h = done (tt, h)
  type_token-Ends token _ cursor n h = error_at-Ends p token.span _ cursor

  typed_param-Ends :
      (cursor n : ℕ) → left p cursor ≤ n → Ends (Below p n Whatever) (parse_typed_param p cursor)
  unfolding parse_typed_param
  typed_param-Ends cursor n h = Ends-bind _ (identifier-Ends p cursor n h) (λ name at b.
      Ends-bind _ (expect-Ends p TokenKind.colon "`:`" at n (omega arith)) (λ _ at' b'.
        Ends-bind _ (advance-Ends p "expected type" at' n (omega arith)) (λ token at'' b''.
          Ends-bind _ (type_token-Ends token token.kind at'' n (omega arith))
            (λ ty at''' c. done (tt, c.1)))))

  typed_params-Ends :
      (f : ℕ) (terminator : TokenKind) (cursor n : ℕ)
      → left p cursor < n
      → left p cursor + 1 ≤ f
      → Ends (Below p n Whatever) (parse_typed_params p f terminator cursor)
  unfolding parse_typed_params
  typed_params-Ends zero terminator cursor n h enough = absurd (omega arith)
  typed_params-Ends (suc f) terminator cursor n h enough =
      Ends-if (check_exact p terminator cursor) _ _ cursor (done (tt, h)) (
        Ends-bind _ (typed_param-Ends cursor (left p cursor) (omega arith)) (λ param at b.
          Ends-bind _
            (separator-Ends p terminator "expected `,` or terminator" at (left p cursor) b.1)
            (λ _ at' b'.
              Ends-bind _ (typed_params-Ends f terminator at' n (omega arith) (omega arith))
                (λ params at'' b''. done (tt, b''.1)))))

  pub spend-Ends :
      (f cursor n : ℕ)
      → left p cursor ≤ n
      → 8 * left p cursor + 1 ≤ f
      → Ends (Below p n SpendFits) (parse_spend p f cursor)
  unfolding parse_spend
  spend-Ends f cursor n h enough =
      let l = left p cursor in
      Ends-bind _ (identifier-Ends p cursor l (omega arith)) (λ name c1 b1.
        Ends-bind _ (expect-Ends p TokenKind.left_paren "`(`" c1 l (omega arith)) (λ _ c2 b2.
          Ends-bind _ (typed_params-Ends f TokenKind.right_paren c2 l (omega arith) (omega arith))
            (λ _ c3 b3.
              Ends-bind _ (expect-Ends p TokenKind.right_paren "`)`" c3 l (omega arith)) (λ _ c4 b4.
                Ends-bind _ (expect-Ends p TokenKind.left_brace "`{`" c4 l (omega arith))
                  (λ _ c5 b5.
                    Ends-bind _ (body-Ends f c5 l (omega arith) (omega arith)) (λ body c6 b6.
                      Ends-bind _ (expect-Ends p TokenKind.right_brace "`}`" c6 n (omega arith))
                        (λ _ c7 b7. done (b6.0, b7.1))))))))
