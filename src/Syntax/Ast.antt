-- ===== src/Syntax/Ast.antt =====
-- compiler/parser/src/ast.rs: the syntax tree. The `Vec<Expr>` inside an array or a call is `Exprs`.
use kaspa_script.Prelude.{ℕ, suc, String, Bool, List, [], ◌∷◌, Option, none, some}
use kaspa_script.Syntax.Token.{Span, TypeName}

pub record Ident : Type 0 where
  pub name : String
  pub span : Span

pub record Param : Type 0 where
  pub name : Ident
  pub ty : TypeName
  pub span : Span

pub data UnaryOp : Type 0 where
  negation negate : UnaryOp

pub data BinaryOp : Type 0 where
  or and equal not_equal greater greater_equal less less_equal add sub mul div modulo : BinaryOp

mutual
  pub data Expr : Type 0 where
    ident : Ident → Expr
    integer : ℕ → Span → Expr
    string : String → Span → Expr
    bool : Bool → Span → Expr
    array : Exprs → Span → Expr
    unary : UnaryOp → Expr → Span → Expr
    binary : Expr → BinaryOp → Expr → Span → Expr
    call : Expr → Exprs → Span → Expr
    field : Expr → Ident → Span → Expr

  pub data Exprs : Type 0 where
    nil : Exprs
    cons : Expr → Exprs → Exprs

-- `Expr::span`
unfoldable pub expr_span : Expr → Span
expr_span (ident i) = i.span
expr_span (integer _ s) = s
expr_span (string _ s) = s
expr_span (bool _ s) = s
expr_span (array _ s) = s
expr_span (unary _ _ s) = s
expr_span (binary _ _ _ s) = s
expr_span (call _ _ s) = s
expr_span (field _ _ s) = s

pub data Stmt : Type 0 where
  let_stmt : Ident → Expr → Span → Stmt
  require : Expr → Span → Stmt
  return : Expr → Span → Stmt

-- `Stmt::span`
unfoldable pub stmt_span : Stmt → Span
stmt_span (let_stmt _ _ s) = s
stmt_span (require _ s) = s
stmt_span (return _ s) = s

pub record Spend : Type 0 where
  pub name : Ident
  pub params : List Param
  pub body : List Stmt
  pub span : Span

pub record Contract : Type 0 where
  pub name : Ident
  pub params : List Param
  pub finality_depth : Option ℕ
  pub spends : List Spend
  pub span : Span

pub record Program : Type 0 where
  pub contracts : List Contract

-- `args.len()`, `args.first()` and `args.get(n)` on the lists of expressions.
unfoldable pub to_list : Exprs → List Expr
to_list nil = []
to_list (cons e es) = e ∷ to_list es

unfoldable pub count : Exprs → ℕ
count nil = 0
count (cons _ es) = suc (count es)

unfoldable pub first : Exprs → Option Expr
first nil = none
first (cons e _) = some e

unfoldable pub second : Exprs → Option Expr
second nil = none
second (cons _ es) = first es
