-- ===== src/Ir/Depth/Forms.antt =====
-- The expressions that have one value: those of the language's constructs that leave one item.
use kaspa_script.Prelude.{ℕ, ◌<◌, ◌^◌, ◌≡◌, ◌⊎◌, String, Bool, true, some, [], ◌∷◌}
use kaspa_script.Syntax.Token.{Span}
use kaspa_script.Syntax.Ast.{Ident, Expr, Exprs, BinaryOp, UnaryOp, count, nil, cons}
use kaspa_script.Ir.Emit.{is_path}
use kaspa_script.Ir.Lower.{binary_kind}
use kaspa_script.Ir.Depth.{effect}

-- A multisig takes as many signatures as its threshold, and `verify` a key.
mutual
  pub data Valued : Expr → Type 0 where
    ident : (i : Ident) → Valued (Expr.ident i)
    integer : (n : ℕ) (s : Span) → Valued (Expr.integer n s)
    string : (t : String) (s : Span) → Valued (Expr.string t s)
    bool : (b : Bool) (s : Span) → Valued (Expr.bool b s)
    negation : {e : Expr} (s : Span) → Valued e → Valued (Expr.unary UnaryOp.negation e s)
    operator :
        {l r : Expr} (op : BinaryOp) (s : Span)
        → effect (binary_kind op) ≡ some (2, 1)
        → Valued l
        → Valued r
        → Valued (Expr.binary l op r s)
    lock :
        {l r : Expr} (s : Span)
        → (is_path l ("block" ∷ "height" ∷ []) ≡ true) ⊎ (is_path l ("block" ∷ "time" ∷ []) ≡ true)
        → Valued r
        → Valued (Expr.binary l BinaryOp.greater_equal r s)
    verify :
        {o key : Expr} (f : Ident) (t : Span) (more : Exprs) (s : Span)
        → f.name ≡ "verify"
        → Valued o
        → Valued key
        → Valued (Expr.call (Expr.field o f t) (cons key more) s)
    digest :
        {e : Expr} (i : Ident) (more : Exprs) (s : Span)
        → (i.name ≡ "sha256") ⊎ (i.name ≡ "blake2b")
        → Valued e
        → Valued (Expr.call (Expr.ident i) (cons e more) s)
    index :
        (i : Ident) (args : Exprs) (s : Span)
        → (i.name ≡ "input") ⊎ (i.name ≡ "output")
        → Valued (Expr.call (Expr.ident i) args s)
    continuation :
        (i : Ident) (args : Exprs) (s : Span)
        → i.name ≡ "continuation"
        → Valued (Expr.call (Expr.ident i) args s)
    multisig :
        {keys signatures : Exprs} (i : Ident) (a b c : Span) (more : Exprs) (s : Span)
        → i.name ≡ "multisig"
        → count keys < 2 ^ 32
        → AllValued keys
        → AllValued signatures
        → Valued (
            Expr.call
              (Expr.ident i)
              (cons
                (Expr.integer (count signatures) a)
                (cons (Expr.array keys b) (cons (Expr.array signatures c) more)))
              s)
    transaction_field :
        (root : Ident) (args : Exprs) (t : Span) (f : Ident) (s : Span)
        → (root.name ≡ "input") ⊎ (root.name ≡ "output")
        → (f.name ≡ "value") ⊎ (f.name ≡ "script")
        → Valued (Expr.field (Expr.call (Expr.ident root) args t) f s)

  pub data AllValued : Exprs → Type 0 where
    none : AllValued nil
    also : {e : Expr} {es : Exprs} → Valued e → AllValued es → AllValued (cons e es)
