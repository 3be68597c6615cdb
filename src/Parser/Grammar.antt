-- ===== src/Parser/Grammar.antt =====
-- The grammar of expressions that compiler/parser/src/parser.rs reads, over the places of a token list.
-- `Binary p min c e c'` says that the tokens from place `c` up to `c'` make `e`, with no binary operator
-- below the precedence `min` outside parentheses; operators of one precedence nest to the left.
use kaspa_script.Prelude.{ℕ, ◌+◌, ◌≤◌, ◌≡◌, String, true, false, some, get_elem?}
use kaspa_script.Syntax.Token.{new_span}
use kaspa_script.Syntax.Kind.{TokenKind, Token}
use kaspa_script.Syntax.Ast.{Ident, Expr, Exprs, UnaryOp, BinaryOp, nil, cons}
use kaspa_script.Parser.State.{
  Parser, discriminant_eq, is_value_keyword, token_text, u64_of, check_exact, current_binary_op,
}
use kaspa_script.Parser.Expressions.{call_of, field_of, unary_of, binary_of}

-- The token at a place.
abbrev pub At : Parser → ℕ → Token → Type 0
At p c t = get_elem? p.tokens c ≡ some t

-- The token at a place, which is of a kind.
abbrev pub Is : Parser → TokenKind → ℕ → Token → Type 0
Is p kind c t = At p c t × (discriminant_eq t.kind kind ≡ true)

pub data Named (p : Parser) : ℕ → Ident → Type 0 where
  identifier :
      {c : ℕ} {t : Token} {name : String}
      → At p c t
      → t.kind ≡ TokenKind.identifier name
      → Named p c record { name = name; span = t.span }
  keyword :
      {c : ℕ} {t : Token} {kind : TokenKind}
      → At p c t
      → t.kind ≡ kind
      → is_value_keyword kind ≡ true
      → Named p c record { name = token_text kind; span = t.span }

-- A comma, or the closing token, which is left there.
pub data Separated (p : Parser) (closing : TokenKind) : ℕ → ℕ → Type 0 where
  comma : {c : ℕ} {t : Token} → Is p TokenKind.comma c t → Separated p closing c (c + 1)
  last : {c : ℕ} → check_exact p closing c ≡ true → Separated p closing c c

mutual
  pub data Binary (p : Parser) : ℕ → ℕ → Expr → ℕ → Type 0 where
    operand : {min c c' : ℕ} {e : Expr} → Unary p c e c' → Binary p min c e c'
    applied :
        {min precedence c c1 c2 : ℕ} {op : BinaryOp} {l r : Expr}
        → min ≤ precedence
        → Binary p precedence c l c1
        → current_binary_op p c1 ≡ some (op, precedence)
        → Binary p (precedence + 1) (c1 + 1) r c2
        → Binary p min c (binary_of l op r) c2

  pub data Unary (p : Parser) : ℕ → Expr → ℕ → Type 0 where
    postfix : {c c' : ℕ} {e : Expr} → Postfix p c e c' → Unary p c e c'
    not :
        {c c' : ℕ} {e : Expr} {t : Token}
        → Is p TokenKind.bang c t
        → Unary p (c + 1) e c'
        → Unary p c (unary_of UnaryOp.negation t.span.start e) c'
    minus :
        {c c' : ℕ} {e : Expr} {t : Token}
        → Is p TokenKind.minus c t
        → Unary p (c + 1) e c'
        → Unary p c (unary_of UnaryOp.negate t.span.start e) c'

  pub data Postfix (p : Parser) : ℕ → Expr → ℕ → Type 0 where
    primary : {c c' : ℕ} {e : Expr} → Primary p c e c' → Postfix p c e c'
    call :
        {c c1 c2 : ℕ} {e : Expr} {es : Exprs} {t close : Token}
        → Postfix p c e c1
        → Is p TokenKind.left_paren c1 t
        → Elements p TokenKind.right_paren (c1 + 1) es c2
        → Is p TokenKind.right_paren c2 close
        → Postfix p c (call_of e es close.span.end) (c2 + 1)
    field :
        {c c1 : ℕ} {e : Expr} {t : Token} {name : Ident}
        → Postfix p c e c1
        → Is p TokenKind.dot c1 t
        → Named p (c1 + 1) name
        → Postfix p c (field_of e name) (c1 + 1 + 1)

  pub data Elements (p : Parser) : TokenKind → ℕ → Exprs → ℕ → Type 0 where
    ended :
        {closing : TokenKind} {c : ℕ} → check_exact p closing c ≡ true → Elements p closing c nil c
    element :
        {closing : TokenKind} {c c1 c2 c3 : ℕ} {e : Expr} {es : Exprs}
        → Binary p 0 c e c1
        → Separated p closing c1 c2
        → Elements p closing c2 es c3
        → Elements p closing c (cons e es) c3

  pub data Primary (p : Parser) : ℕ → Expr → ℕ → Type 0 where
    name : {c : ℕ} {n : Ident} → Named p c n → Primary p c (Expr.ident n) (c + 1)
    integer :
        {c n : ℕ} {t : Token} {value : String}
        → At p c t
        → t.kind ≡ TokenKind.integer value
        → u64_of value ≡ some n
        → Primary p c (Expr.integer n t.span) (c + 1)
    string :
        {c : ℕ} {t : Token} {value : String}
        → At p c t
        → t.kind ≡ TokenKind.string value
        → Primary p c (Expr.string value t.span) (c + 1)
    true_word :
        {c : ℕ} {t : Token}
        → At p c t
        → t.kind ≡ TokenKind.true_word
        → Primary p c (Expr.bool true t.span) (c + 1)
    false_word :
        {c : ℕ} {t : Token}
        → At p c t
        → t.kind ≡ TokenKind.false_word
        → Primary p c (Expr.bool false t.span) (c + 1)
    parens :
        {c c' : ℕ} {t close : Token} {e : Expr}
        → At p c t
        → t.kind ≡ TokenKind.left_paren
        → Binary p 0 (c + 1) e c'
        → Is p TokenKind.right_paren c' close
        → Primary p c e (c' + 1)
    array :
        {c c' : ℕ} {t close : Token} {es : Exprs}
        → At p c t
        → t.kind ≡ TokenKind.left_bracket
        → Elements p TokenKind.right_bracket (c + 1) es c'
        → Is p TokenKind.right_bracket c' close
        → Primary p c (Expr.array es (new_span t.span.start close.span.end)) (c' + 1)
