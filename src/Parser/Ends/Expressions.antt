-- ===== src/Parser/Ends/Expressions.antt =====
-- compiler/parser/src/parser.rs: the parsing of expressions ends, and the literals fit in 64 bits.
-- A parser that starts with a token has eight units of fuel for each token left, and a few for its calls.
use kaspa_script.Prelude.{
  ℕ, zero, suc, ◌+◌, ◌*◌, ◌^◌, ◌<◌, ◌≤◌, ◌≡◌, refl, String, Option, none, some, get_elem?, not,
  arith,
}
use kaspa_script.Syntax.Kind.{TokenKind, Token}
use kaspa_script.Syntax.Ast.{Expr, Exprs, UnaryOp, BinaryOp, nil, cons}
use kaspa_script.Parser.State.{
  Parser, Parse, is_value_keyword, check_exact, operator_at, current_binary_op,
}
use kaspa_script.Parser.Expressions.{
  call_of, field_of, unary_of, binary_of, at_least, on_operator, separator, integer_of, in_parens,
  keyword_ident, primary_of, parse_precedence, climb, parse_unary, parse_operand, parse_postfix,
  postfix_loop, parse_arguments, parse_elements, parse_primary, parse_array,
}
use kaspa_script.Parser.Ends.Reading.{
  Ends, done, left, Below, Whatever, Ends-bind, Ends-if, error_at-Ends, error_here-Ends,
  advance-Ends, expect-Ends, match-Ends, identifier-Ends, parse_u64-Ends, get_elem?-some-lt,
}

-- Every integer literal is below 2^64.
abbrev mutual
  pub Fits : Expr → Type 0
  Fits (Expr.ident _) = Unit
  Fits (Expr.integer n _) = n < 2 ^ 64
  Fits (Expr.string _ _) = Unit
  Fits (Expr.bool _ _) = Unit
  Fits (Expr.array es _) = FitsAll es
  Fits (Expr.unary _ e _) = Fits e
  Fits (Expr.binary l _ r _) = Fits l × Fits r
  Fits (Expr.call e es _) = Fits e × FitsAll es
  Fits (Expr.field e _ _) = Fits e

  pub FitsAll : Exprs → Type 0
  FitsAll nil = Unit
  FitsAll (cons e es) = Fits e × FitsAll es

module _ (p : Parser) where
  pub separator-Ends :
      (closing : TokenKind) (message : String) (cursor n : ℕ)
      → left p cursor < n
      → Ends (Below p n Whatever) (separator p closing message cursor)
  unfolding separator
  separator-Ends closing message cursor n h =
      match-Ends p _ TokenKind.comma cursor (λ at b. done {cursor = at} (tt, omega arith))
        (Ends-if (not (check_exact p closing cursor)) _ _ cursor (error_here-Ends p message cursor)
          (done (tt, h)))

  integer_of-Ends :
      (token : Token) (value : String) (cursor n : ℕ)
      → left p cursor < n
      → Ends (Below p n Fits) (integer_of p token value cursor)
  unfolding integer_of
  integer_of-Ends token value cursor n h =
      Ends-bind _ (parse_u64-Ends p value token.span cursor n h) (λ v cursor' b. done b)

  in_parens-Ends :
      (expression : Parse Expr) (cursor n : ℕ)
      → Ends (Below p n Fits) (expression cursor)
      → Ends (Below p n Fits) (in_parens p expression cursor)
  unfolding in_parens
  in_parens-Ends expression cursor n h = Ends-bind _ h (λ e at b.
      Ends-bind _ (expect-Ends p TokenKind.right_paren "`)`" at n (omega arith))
        (λ _ at' b'. done (b.0, b'.1)))

  keyword_ident-Ends :
      (token : Token) (kind : TokenKind) (cursor n : ℕ)
      → left p cursor < n
      → Ends (Below p n Fits) (keyword_ident p token kind cursor)
  unfolding keyword_ident
  keyword_ident-Ends token kind cursor n h =
      Ends-if (is_value_keyword kind) _ _ cursor (done (tt, h))
        (error_at-Ends p token.span _ cursor)

  primary_of-Ends :
      (token : Token) (kind : TokenKind) (expression : Parse Expr) (array : ℕ → Parse Expr)
      (cursor n : ℕ)
      → left p cursor < n
      → Ends (Below p n Fits) (expression cursor)
      → Ends (Below p n Fits) (array token.span.start cursor)
      → Ends (Below p n Fits) (primary_of p token kind expression array cursor)
  unfolding primary_of
  primary_of-Ends token (TokenKind.identifier name) e a cursor n h he ha = done (tt, h)
  primary_of-Ends token (TokenKind.integer value) e a cursor n h he ha =
      integer_of-Ends token value cursor n h
  primary_of-Ends token (TokenKind.string value) e a cursor n h he ha = done (tt, h)
  primary_of-Ends token TokenKind.true_word e a cursor n h he ha = done (tt, h)
  primary_of-Ends token TokenKind.false_word e a cursor n h he ha = done (tt, h)
  primary_of-Ends token TokenKind.left_paren e a cursor n h he ha = in_parens-Ends e cursor n he
  primary_of-Ends token TokenKind.left_bracket e a cursor n h he ha = ha
  primary_of-Ends token kind e a cursor n h he ha = keyword_ident-Ends token kind cursor n h

  on_some-Ends :
      {A : Type 0} {Q : A → ℕ → Type 0} (o : Option (BinaryOp × ℕ)) (stop : Parse A)
      (go : BinaryOp → ℕ → Parse A) (cursor : ℕ)
      → Ends Q (stop cursor)
      → ((op : BinaryOp) (precedence : ℕ) → Ends Q (go op precedence (cursor + 1)))
      → Ends Q (on_operator o stop go cursor)
  unfolding on_operator
  on_some-Ends none stop go cursor h k = h
  on_some-Ends (some (op, precedence)) stop go cursor h k = k op precedence

  on_token-Ends :
      {A : Type 0} {Q : A → ℕ → Type 0} (min : ℕ) (o : Option Token) (stop : Parse A)
      (go : BinaryOp → ℕ → Parse A) (cursor : ℕ)
      → get_elem? p.tokens cursor ≡ o
      → Ends Q (stop cursor)
      → (left p (cursor + 1) < left p cursor
          → (op : BinaryOp) (precedence : ℕ) → Ends Q (go op precedence (cursor + 1)))
      → Ends Q (on_operator (at_least min (operator_at o)) stop go cursor)
  unfolding on_operator at_least operator_at
  on_token-Ends min none stop go cursor e h k = h
  on_token-Ends min (some token) stop go cursor e h k =
      let inside = get_elem?-some-lt p.tokens cursor e in
      on_some-Ends (at_least min (operator_at (some token))) stop go cursor h (k (omega arith))

  operator-Ends :
      {A : Type 0} {Q : A → ℕ → Type 0} (min : ℕ) (stop : Parse A) (go : BinaryOp → ℕ → Parse A)
      (cursor : ℕ)
      → Ends Q (stop cursor)
      → (left p (cursor + 1) < left p cursor
          → (op : BinaryOp) (precedence : ℕ) → Ends Q (go op precedence (cursor + 1)))
      → Ends Q (on_operator (at_least min (current_binary_op p cursor)) stop go cursor)
  unfolding current_binary_op
  operator-Ends min stop go cursor h k =
      on_token-Ends min (get_elem? p.tokens cursor) stop go cursor refl h k

mutual
  unfolding parse_precedence call_of field_of unary_of binary_of

  pub precedence-Ends :
      (p : Parser) (f min cursor n : ℕ)
      → left p cursor ≤ n
      → 8 * left p cursor + 4 ≤ f
      → Ends (Below p n Fits) (parse_precedence p f min cursor)
  precedence-Ends p zero min cursor n h enough = absurd (omega arith)
  precedence-Ends p (suc f) min cursor n h enough =
      Ends-bind _ (unary-Ends p f cursor (left p cursor) (omega arith) (omega arith))
        (λ e at b. climb-Ends p f min e at n b.0 (omega arith) (omega arith))

  climb-Ends :
      (p : Parser) (f min : ℕ) (e : Expr) (cursor n : ℕ)
      → Fits e
      → left p cursor < n
      → 8 * left p cursor + 1 ≤ f
      → Ends (Below p n Fits) (climb p f min e cursor)
  climb-Ends p zero min e cursor n fits h enough = absurd (omega arith)
  climb-Ends p (suc f) min e cursor n fits h enough =
      operator-Ends p min _ _ cursor (done (fits, h)) (λ b op precedence.
        Ends-bind _
          (precedence-Ends p f (precedence + 1) (cursor + 1) (left p (cursor + 1)) (omega arith)
            (omega arith))
          (λ e' at b'.
            climb-Ends p f min (binary_of e op e') at n (fits, b'.0) (omega arith) (omega arith)))

  unary-Ends :
      (p : Parser) (f cursor n : ℕ)
      → left p cursor ≤ n
      → 8 * left p cursor + 3 ≤ f
      → Ends (Below p n Fits) (parse_unary p f cursor)
  unary-Ends p zero cursor n h enough = absurd (omega arith)
  unary-Ends p (suc f) cursor n h enough =
      match-Ends p _ TokenKind.bang cursor
        (λ at b. operand-Ends p f UnaryOp.negation at n (omega arith) (omega arith))
        (match-Ends p _ TokenKind.minus cursor
          (λ at b. operand-Ends p f UnaryOp.negate at n (omega arith) (omega arith))
          (postfix-Ends p f cursor n h (omega arith)))

  operand-Ends :
      (p : Parser) (f : ℕ) (op : UnaryOp) (cursor n : ℕ)
      → left p cursor ≤ n
      → 8 * left p cursor + 4 ≤ f
      → Ends (Below p n Fits) (parse_operand p f op cursor)
  operand-Ends p zero op cursor n h enough = absurd (omega arith)
  operand-Ends p (suc f) op cursor n h enough =
      Ends-bind _ (unary-Ends p f cursor n h (omega arith)) (λ e at b. done b)

  postfix-Ends :
      (p : Parser) (f cursor n : ℕ)
      → left p cursor ≤ n
      → 8 * left p cursor + 2 ≤ f
      → Ends (Below p n Fits) (parse_postfix p f cursor)
  postfix-Ends p zero cursor n h enough = absurd (omega arith)
  postfix-Ends p (suc f) cursor n h enough =
      Ends-bind _ (primary-Ends p f cursor (left p cursor) (omega arith) (omega arith))
        (λ e at b. postfix_loop-Ends p f e at n b.0 (omega arith) (omega arith))

  postfix_loop-Ends :
      (p : Parser) (f : ℕ) (e : Expr) (cursor n : ℕ)
      → Fits e
      → left p cursor < n
      → 8 * left p cursor + 1 ≤ f
      → Ends (Below p n Fits) (postfix_loop p f e cursor)
  postfix_loop-Ends p zero e cursor n fits h enough = absurd (omega arith)
  postfix_loop-Ends p (suc f) e cursor n fits h enough =
      match-Ends p _ TokenKind.left_paren cursor
        (λ at b.
          Ends-bind _ (arguments-Ends p f at (left p cursor) (omega arith) (omega arith))
            (λ es at' b'.
              Ends-bind _
                (expect-Ends p TokenKind.right_paren "`)`" at' (left p cursor) (omega arith))
                (λ _ at'' b''.
                  postfix_loop-Ends p f (call_of e es _) at'' n (fits, b'.0) (omega arith)
                    (omega arith))))
        (match-Ends p _ TokenKind.dot cursor
          (λ at b. Ends-bind _ (identifier-Ends p at (left p cursor) (omega arith)) (λ name at' b'.
            postfix_loop-Ends p f (field_of e name) at' n fits (omega arith) (omega arith)))
          (done (fits, h)))

  arguments-Ends :
      (p : Parser) (f cursor n : ℕ)
      → left p cursor < n
      → 8 * left p cursor + 6 ≤ f
      → Ends (Below p n FitsAll) (parse_arguments p f cursor)
  arguments-Ends p zero cursor n h enough = absurd (omega arith)
  arguments-Ends p (suc f) cursor n h enough =
      elements-Ends p f TokenKind.right_paren _ cursor n h (omega arith)

  elements-Ends :
      (p : Parser) (f : ℕ) (closing : TokenKind) (message : String) (cursor n : ℕ)
      → left p cursor < n
      → 8 * left p cursor + 5 ≤ f
      → Ends (Below p n FitsAll) (parse_elements p f closing message cursor)
  elements-Ends p zero closing message cursor n h enough = absurd (omega arith)
  elements-Ends p (suc f) closing message cursor n h enough =
      Ends-if (check_exact p closing cursor) _ _ cursor (done (tt, h)) (
        Ends-bind _ (precedence-Ends p f 0 cursor (left p cursor) (omega arith) (omega arith))
          (λ e at b.
            Ends-bind _ (separator-Ends p closing message at (left p cursor) b.1) (λ _ at' b'.
              Ends-bind _ (elements-Ends p f closing message at' n (omega arith) (omega arith))
                (λ es at'' b''. done ((b.0, b''.0), b''.1)))))

  primary-Ends :
      (p : Parser) (f cursor n : ℕ)
      → left p cursor ≤ n
      → 8 * left p cursor + 1 ≤ f
      → Ends (Below p n Fits) (parse_primary p f cursor)
  primary-Ends p zero cursor n h enough = absurd (omega arith)
  primary-Ends p (suc f) cursor n h enough =
      Ends-bind _ (advance-Ends p _ cursor (left p cursor) (omega arith)) (λ token at b.
        primary_of-Ends p token token.kind _ _ at n (omega arith)
          (precedence-Ends p f 0 at n (omega arith) (omega arith))
          (array-Ends p f token.span.start at n (omega arith) (omega arith)))

  array-Ends :
      (p : Parser) (f start cursor n : ℕ)
      → left p cursor < n
      → 8 * left p cursor + 6 ≤ f
      → Ends (Below p n Fits) (parse_array p f start cursor)
  array-Ends p zero start cursor n h enough = absurd (omega arith)
  array-Ends p (suc f) start cursor n h enough =
      Ends-bind _ (elements-Ends p f TokenKind.right_bracket _ cursor n h (omega arith)) (λ es at b.
        Ends-bind _ (expect-Ends p TokenKind.right_bracket "`]`" at n (omega arith))
          (λ _ at' b'. done (b.0, b'.1)))
