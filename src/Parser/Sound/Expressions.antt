-- ===== src/Parser/Sound/Expressions.antt =====
-- compiler/parser/src/parser.rs: each expression that the parser gives is in the grammar, with the
-- tokens that it has read; and the operator that follows it binds less than what was asked for.
use kaspa_script.Prelude.{ℕ, zero, suc, ◌+◌, ◌*◌, ◌<◌, ◌≤◌, ◌≡◌, refl, String, none, some, arith}
use kaspa_script.Syntax.Kind.{TokenKind, Token}
use kaspa_script.Syntax.Ast.{Expr, UnaryOp, BinaryOp}
use kaspa_script.Parser.State.{
  Parser, Step, Parse, is_value_keyword, check_exact, current_binary_op,
}
use kaspa_script.Parser.Expressions.{
  call_of, field_of, unary_of, binary_of, at_least, integer_of, in_parens, keyword_ident,
  primary_of, parse_precedence, climb, parse_unary, parse_operand, parse_postfix, postfix_loop,
  parse_arguments, parse_elements, parse_primary, parse_array, parse_expression,
}
use kaspa_script.Parser.Grammar.{At, Named, Binary, Unary, Postfix, Elements, Primary}
use kaspa_script.Parser.Ends.Reading.{Ends, done, stopped as halted, left}
use kaspa_script.Parser.Ends.Expressions.{Fits, precedence-Ends}
use kaspa_script.Parser.Sound.Reading.{
  Gives, given, stopped, Gives-bind, Gives-map, Gives-if, operator-Gives, at_least-some,
  at_least-none, error_at-Gives, advance-Gives, expect-Gives, match-Gives, previous_span-At,
  identifier-Gives, parse_u64-Gives, separator-Gives,
}

-- A larger precedence lets fewer operators through.
Binary-le : {p : Parser} {m n c c' : ℕ} {e : Expr} → m ≤ n → Binary p n c e c' → Binary p m c e c'
Binary-le h (Binary.operand u) = Binary.operand u
Binary-le {m} {n} h (Binary.applied {min} {precedence} k l op r) =
    Binary.applied (omega arith) l op r

-- No operator of a precedence from `min` on follows.
abbrev pub Stops : Parser → ℕ → ℕ → Type 0
Stops p min c = at_least min (current_binary_op p c) ≡ none

-- What was read binds as much as the operator that follows, if the loop takes that one.
abbrev Ready : Parser → ℕ → ℕ → Expr → ℕ → Type 0
Ready p min start e c =
    (op : BinaryOp) (precedence : ℕ)
    → at_least min (current_binary_op p c) ≡ some (op, precedence)
    → Binary p precedence start e c

module _ (p : Parser) where
  integer_of-Gives :
      (t : Token) (value : String) (c c' : ℕ)
      → At p c t
      → t.kind ≡ TokenKind.integer value
      → c' ≡ c + 1
      → Gives (λ e at. Primary p c e at) (integer_of p t value c')
  unfolding integer_of
  integer_of-Gives t value c c' h k e =
      Gives-bind _ (parse_u64-Gives p value t.span c')
        (λ n at b. given (rw (b.0, e) (Primary.integer h k b.1)))

  in_parens-Gives :
      (t : Token) (expression : Parse Expr) (c c' : ℕ)
      → At p c t
      → t.kind ≡ TokenKind.left_paren
      → Gives (λ e at. Binary p 0 (c + 1) e at) (expression c')
      → Gives (λ e at. Primary p c e at) (in_parens p expression c')
  unfolding in_parens
  in_parens-Gives t expression c c' h k b = Gives-bind _ b (λ e at d.
      Gives-bind _ (expect-Gives p TokenKind.right_paren "`)`" at)
        (λ close at' d'. given (rw d'.0 (Primary.parens h k d d'.1))))

  keyword_ident-Gives :
      (t : Token) (kind : TokenKind) (c c' : ℕ)
      → At p c t
      → t.kind ≡ kind
      → c' ≡ c + 1
      → Gives (λ e at. Primary p c e at) (keyword_ident p t kind c')
  unfolding keyword_ident
  keyword_ident-Gives t kind c c' h k e =
      Gives-if (is_value_keyword kind) _ _ c'
        (λ b. given (rw e (Primary.name (Named.keyword h k b)))) (λ b. error_at-Gives p t.span _ c')

  primary_of-Gives :
      (t : Token) (kind : TokenKind) (expression : Parse Expr) (array : ℕ → Parse Expr) (c c' : ℕ)
      → At p c t
      → t.kind ≡ kind
      → c' ≡ c + 1
      → Gives (λ e at. Binary p 0 (c + 1) e at) (expression c')
      → (t.kind ≡ TokenKind.left_bracket → Gives (λ e at. Primary p c e at) (array t.span.start c'))
      → Gives (λ e at. Primary p c e at) (primary_of p t kind expression array c')
  unfolding primary_of
  primary_of-Gives t (TokenKind.identifier name) e a c c' h k q he ha =
      given (rw q (Primary.name (Named.identifier h k)))
  primary_of-Gives t (TokenKind.integer value) e a c c' h k q he ha =
      integer_of-Gives t value c c' h k q
  primary_of-Gives t (TokenKind.string value) e a c c' h k q he ha =
      given (rw q (Primary.string h k))
  primary_of-Gives t TokenKind.true_word e a c c' h k q he ha = given (rw q (Primary.true_word h k))
  primary_of-Gives t TokenKind.false_word e a c c' h k q he ha =
      given (rw q (Primary.false_word h k))
  primary_of-Gives t TokenKind.left_paren e a c c' h k q he ha = in_parens-Gives t e c c' h k he
  primary_of-Gives t TokenKind.left_bracket e a c c' h k q he ha = ha k
  primary_of-Gives t kind e a c c' h k q he ha = keyword_ident-Gives t kind c c' h k q

mutual
  unfolding parse_precedence

  pub precedence-Gives :
      (p : Parser) (f min c : ℕ)
      → Gives (λ e at. Binary p min c e at × Stops p min at) (parse_precedence p f min c)
  precedence-Gives p zero min c = stopped
  precedence-Gives p (suc f) min c = Gives-bind _ (Unary-Gives p f c) (λ e at u.
      climb-Gives p f min c e at (Binary.operand u) (λ op precedence h. Binary.operand u))

  climb-Gives :
      (p : Parser) (f min start : ℕ) (l : Expr) (c : ℕ)
      → Binary p min start l c
      → Ready p min start l c
      → Gives (λ e at. Binary p min start e at × Stops p min at) (climb p f min l c)
  climb-Gives p zero min start l c b ready = stopped
  climb-Gives p (suc f) min start l c b ready =
      operator-Gives (at_least min (current_binary_op p c)) _ _ c (λ h. given (b, h))
        (λ op precedence h.
          let found = at_least-some min _ op precedence h in
          Gives-bind _ (precedence-Gives p f (precedence + 1) (c + 1)) (λ r at d.
            let lr : Binary p precedence start (binary_of l op r) at =
              Binary.applied (omega arith) (ready op precedence h) found.0 d.0 in
            climb-Gives p f min start (binary_of l op r) at (Binary-le found.1 lr)
              (λ op' precedence' h'.
                let next = at_least-some min _ op' precedence' h' in
                let below = at_least-none (precedence + 1) _ op' precedence' d.1 next.0 in
                Binary-le (omega arith) lr)))

  Unary-Gives : (p : Parser) (f c : ℕ) → Gives (λ e at. Unary p c e at) (parse_unary p f c)
  Unary-Gives p zero c = stopped
  Unary-Gives p (suc f) c =
      match-Gives p _ TokenKind.bang c
        (λ t h. operand-Gives p f UnaryOp.negation c t h.0 (λ e at u. Unary.not h u))
        (match-Gives p _ TokenKind.minus c
          (λ t h. operand-Gives p f UnaryOp.negate c t h.0 (λ e at u. Unary.minus h u))
          (postfix-Gives p f c))

  operand-Gives :
      (p : Parser) (f : ℕ) (op : UnaryOp) (c : ℕ) (t : Token)
      → At p c t
      → ((e : Expr) (at : ℕ) → Unary p (c + 1) e at → Unary p c (unary_of op t.span.start e) at)
      → Gives (λ e at. Unary p c e at) (parse_operand p f op (c + 1))
  operand-Gives p zero op c t h build = stopped
  operand-Gives p (suc f) op c t h build =
      Gives-bind _ (Unary-Gives p f (c + 1))
        (λ e at u. given (rw (previous_span-At p c t h) (build e at u)))

  postfix-Gives : (p : Parser) (f c : ℕ) → Gives (λ e at. Unary p c e at) (parse_postfix p f c)
  postfix-Gives p zero c = stopped
  postfix-Gives p (suc f) c =
      Gives-bind _ (Primary-Gives p f c)
        (λ e at u. postfix_loop-Gives p f c e at (Postfix.primary u))

  postfix_loop-Gives :
      (p : Parser) (f start : ℕ) (e : Expr) (c : ℕ)
      → Postfix p start e c
      → Gives (λ e' at. Unary p start e' at) (postfix_loop p f e c)
  postfix_loop-Gives p zero start e c u = stopped
  postfix_loop-Gives p (suc f) start e c u =
      match-Gives p _ TokenKind.left_paren c
        (λ t h. Gives-bind _ (arguments-Gives p f (c + 1)) (λ es at k.
          Gives-bind _ (expect-Gives p TokenKind.right_paren "`)`" at) (λ close at' k'.
            postfix_loop-Gives p f start (call_of e es close.span.end) at'
              (rw k'.0 (Postfix.call u h k k'.1)))))
        (match-Gives p _ TokenKind.dot c
          (λ t h. Gives-bind _ (identifier-Gives p (c + 1)) (λ name at k.
            postfix_loop-Gives p f start (field_of e name) at (rw k.0 (Postfix.field u h k.1))))
          (given (Unary.postfix u)))

  arguments-Gives :
      (p : Parser) (f c : ℕ)
      → Gives (λ es at. Elements p TokenKind.right_paren c es at) (parse_arguments p f c)
  arguments-Gives p zero c = stopped
  arguments-Gives p (suc f) c = Elements-Gives p f TokenKind.right_paren "expected `,` or `)`" c

  Elements-Gives :
      (p : Parser) (f : ℕ) (closing : TokenKind) (message : String) (c : ℕ)
      → Gives (λ es at. Elements p closing c es at) (parse_elements p f closing message c)
  Elements-Gives p zero closing message c = stopped
  Elements-Gives p (suc f) closing message c =
      Gives-if (check_exact p closing c) _ _ c (λ h. given (Elements.ended h))
        (λ _. Gives-bind _ (precedence-Gives p f 0 c) (λ e at b.
          Gives-bind _ (separator-Gives p closing message at) (λ _ at' s.
            Gives-bind _ (Elements-Gives p f closing message at')
              (λ es at'' k. given (Elements.element b.0 s k)))))

  Primary-Gives : (p : Parser) (f c : ℕ) → Gives (λ e at. Primary p c e at) (parse_primary p f c)
  Primary-Gives p zero c = stopped
  Primary-Gives p (suc f) c = Gives-bind _ (advance-Gives p "expected expression" c) (λ t at h.
      primary_of-Gives p t t.kind _ _ c at h.1 refl h.0
        (rw h.0 (Gives-map (λ e _ b. b.0) (precedence-Gives p f 0 (c + 1))))
        (λ k. rw h.0 (array-Gives p f c t h.1 k)))

  array-Gives :
      (p : Parser) (f c : ℕ) (t : Token)
      → At p c t
      → t.kind ≡ TokenKind.left_bracket
      → Gives (λ e at. Primary p c e at) (parse_array p f t.span.start (c + 1))
  array-Gives p zero c t h k = stopped
  array-Gives p (suc f) c t h k =
      Gives-bind _ (Elements-Gives p f TokenKind.right_bracket "expected `,` or `]`" (c + 1))
        (λ es at d.
          Gives-bind _ (expect-Gives p TokenKind.right_bracket "`]`" at)
            (λ close at' d'. given (rw d'.0 (Primary.array h k d d'.1))))

Ends-Gives :
    {A : Type 0} {P Q : A → ℕ → Type 0} {r : Step A}
    → Ends P r
    → Gives Q r
    → Ends (λ a c. P a c × Q a c) r
Ends-Gives (done h) (given k) = done (h, k)
Ends-Gives halted k = halted

-- With eight units of fuel for each token left, and four, the parser of expressions gives a parse error,
-- or an expression: the tokens from the cursor to the new one make it in the grammar, there are some, no
-- binary operator follows, and its literals are below 2^64.
pub parse_expression-Binary :
    (p : Parser) (f c : ℕ)
    → 8 * left p c + 4 ≤ f
    → Ends
        (λ e at. (Fits e × (left p at < left p c)) × (Binary p 0 c e at × Stops p 0 at))
        (parse_expression p f c)
unfolding parse_expression
parse_expression-Binary p f c enough =
    Ends-Gives (precedence-Ends p f 0 c (left p c) (omega arith) enough) (precedence-Gives p f 0 c)
