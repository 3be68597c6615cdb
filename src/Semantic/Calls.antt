-- ===== src/Semantic/Calls.antt =====
-- compiler/semantic/src/checker.rs: the types of calls, fields and whole expressions.
use text.Mathlib.Text.{◌==◌ as str_eq}
use kaspa_script.Prelude.{
  ℕ, String, Bool, true, false, List, [], ◌∷◌, Option, none, some, leb, ◌==◌, ◌&&◌, ◌||◌, not,
  if◌then◌else◌,
}
use kaspa_script.Prelude.Text.{member, codes}
use kaspa_script.Syntax.Token.{Span, TypeName}
use kaspa_script.Syntax.Ast.{
  Ident, Expr, Exprs, BinaryOp, UnaryOp, expr_span, count, first, second, nil, cons,
}
use kaspa_script.Ir.LowerCall.{output_index}
use kaspa_script.Semantic.Checker.{Scope, Check, ◌>>=◌, ◌>>◌, pure, skip, error, demand}
use kaspa_script.Semantic.Infer.{
  Infer, has_type, first_span, infer_identifier, infer_first, infer_every, check_index_call,
  is_valid_continuation_name,
}

-- `char::is_whitespace`
unfoldable pub is_whitespace : ℕ → Bool
is_whitespace c =
    leb 9 c && leb c 13
    || c == 32
    || c == 0x85
    || c == 0xa0
    || c == 0x1680
    || leb 0x2000 c && leb c 0x200a
    || c == 0x2028
    || c == 0x2029
    || c == 0x202f
    || c == 0x205f
    || c == 0x3000

-- `value.trim() != value`: the first or the last character is white space.
unfoldable pub ends_in_space : List ℕ → Bool
unfolding is_whitespace
ends_in_space [] = false
ends_in_space (c ∷ []) = is_whitespace c
ends_in_space (_ ∷ c ∷ cs) = ends_in_space (c ∷ cs)

unfoldable pub starts_in_space : List ℕ → Bool
unfolding is_whitespace
starts_in_space [] = false
starts_in_space (c ∷ _) = is_whitespace c

unfoldable pub is_untrimmed : List ℕ → Bool
unfolding starts_in_space ends_in_space
is_untrimmed cs = starts_in_space cs || ends_in_space cs

unfoldable pub check_continuation_name : Option Expr → Check (Unit {0})
unfolding error is_valid_continuation_name is_untrimmed codes demand expr_span
check_continuation_name none = skip
check_continuation_name (some (Expr.string value span)) =
    if is_valid_continuation_name value
    then demand (not (is_untrimmed (codes value))) span
        "`continuation` name must not have leading or trailing space"
    else error span "`continuation` name must be a non-empty identifier label"
check_continuation_name (some e) =
    error (expr_span e) "`continuation` name must be a string literal"

unfoldable pub is_index : Option ℕ → Bool
is_index none = false
is_index (some _) = true

unfoldable pub second_span : Exprs → Span → Span
unfolding first_span
second_span nil default = default
second_span (cons _ es) default = first_span es default

unfoldable pub check_continuation : Exprs → Span → Check (Unit {0})
unfolding check_continuation_name output_index is_index second_span demand error count first second
check_continuation args span =
    if count args == 2
    then (do
      check_continuation_name (first args)
      demand (is_index (output_index (second args))) (second_span args span)
          "`continuation` second argument must be output(index)")
    else error span "`continuation` requires a name and output(index)"

unfoldable pub array_size : Option Expr → Option ℕ
unfolding count
array_size (some (Expr.array elements _)) = some (count elements)
array_size _ = none

unfoldable pub check_threshold : ℕ → Option ℕ → Span → Check (Unit {0})
unfolding demand
check_threshold k none span = skip
check_threshold k (some keys) span =
    demand (leb k keys) span "`multisig` k cannot exceed number of keys"

unfoldable pub check_multisig_literal : Option Expr → Option Expr → Check (Unit {0})
unfolding error check_threshold array_size expr_span
check_multisig_literal (some (Expr.integer k span)) keys = check_threshold k (array_size keys) span
check_multisig_literal (some e) keys = error (expr_span e) "`multisig` k must be an integer literal"
check_multisig_literal none keys = skip

unfoldable pub check_multisig : Exprs → List Infer → Span → Scope → Check (Unit {0})
unfolding check_multisig_literal infer_every error count first second
check_multisig args inferences span scope =
    if count args == 3
    then (do check_multisig_literal (first args) (second args); infer_every inferences scope)
    else error span "`multisig` requires k, keys, and signatures"

-- The only argument must have the type: else `wrong`, or `missing` where there is not one argument.
unfoldable pub check_argument :
    TypeName → Exprs → List Infer → Span → String → String → Scope → Check (Unit {0})
unfolding infer_first has_type first_span demand error count
check_argument ty args inferences span missing wrong scope =
    if count args == 1
    then (do
      found ← infer_first inferences scope
      demand (has_type ty found) (first_span args span) wrong)
    else error span missing

unfoldable pub infer_verify : Expr → Infer → Ident → Exprs → List Infer → Infer
unfolding has_type check_argument demand expr_span
infer_verify object infer_object f args inferences scope = do
  receiver ← infer_object scope
  demand (has_type TypeName.signature receiver) (expr_span object)
      "`verify` receiver must be Signature"
  check_argument TypeName.public_key args inferences f.span
      "`verify` requires one PublicKey argument" "`verify` argument must be PublicKey" scope
  pure (some TypeName.bool)

unfoldable pub infer_hash : Exprs → List Infer → Span → Infer
unfolding infer_first error count
infer_hash args inferences span scope = do
  if count args == 1
      then (infer_first inferences scope >>= λ _. skip)
      else error span "hash functions require one argument"
  pure (some TypeName.hash)

unfoldable pub infer_plain_call : Infer → List Infer → Infer
unfolding infer_every
infer_plain_call infer_callee inferences scope = do
  _ ← infer_callee scope
  infer_every inferences scope
  pure (some TypeName.bool)

unfoldable pub infer_builtin : Ident → Infer → Exprs → List Infer → Infer
unfolding check_index_call check_continuation check_argument check_multisig infer_hash
    infer_plain_call member
infer_builtin i infer_callee args inferences scope =
    if str_eq i.name "input"
    then check_index_call args i.span TypeName.input
    else if str_eq i.name "output"
    then check_index_call args i.span TypeName.output
    else if str_eq i.name "continuation"
    then (do check_continuation args i.span; pure (some TypeName.bool))
    else if str_eq i.name "zk_verify"
    then (do
      check_argument TypeName.zk_proof args inferences i.span
          "`zk_verify` requires one proof argument" "`zk_verify` argument must be ZKProof" scope
      pure (some TypeName.bool))
    else if str_eq i.name "multisig"
    then (do check_multisig args inferences i.span scope; pure (some TypeName.bool))
    else if member i.name ("sha256" ∷ "blake2b" ∷ "hash160" ∷ [])
    then infer_hash args inferences i.span scope
    else infer_plain_call infer_callee inferences scope

unfoldable pub infer_call : Expr → Infer → Infer → Exprs → List Infer → Infer
unfolding infer_verify infer_builtin infer_plain_call
infer_call (Expr.field object f _) infer_callee infer_object args inferences scope =
    if str_eq f.name "verify"
    then infer_verify object infer_object f args inferences scope
    else infer_plain_call infer_callee inferences scope
infer_call (Expr.ident i) infer_callee infer_object args inferences scope =
    infer_builtin i infer_callee args inferences scope
infer_call _ infer_callee infer_object args inferences scope =
    infer_plain_call infer_callee inferences scope

-- The field of an input or an output.
unfoldable pub transaction_field_type : Ident → Check (Option TypeName)
unfolding error
transaction_field_type f =
    if str_eq f.name "value"
    then pure (some TypeName.amount)
    else if str_eq f.name "script"
    then pure (some TypeName.bytes)
    else if str_eq f.name "covenant_id"
    then pure (some TypeName.covenant_id)
    else (do error f.span "unknown input/output field"; pure none)

unfoldable pub field_of : Ident → Option TypeName → Check (Option TypeName)
unfolding transaction_field_type
field_of f (some TypeName.input) = transaction_field_type f
field_of f (some TypeName.output) = transaction_field_type f
field_of f other = pure other

unfoldable pub infer_other_field : Infer → Ident → Infer
unfolding field_of
infer_other_field infer_object f scope = do object ← infer_object scope; field_of f object

unfoldable pub infer_field : Expr → Infer → Ident → Infer
unfolding infer_other_field error
infer_field (Expr.ident root) infer_object f scope =
    if str_eq root.name "block"
    then (if str_eq f.name "height" || str_eq f.name "time"
        then pure (some TypeName.block_height)
        else (do error f.span "`block` only supports `.height` and `.time`"; pure none))
    else if str_eq root.name "covenant_id" && str_eq f.name "depth"
    then pure (some TypeName.block_height)
    else if str_eq root.name "sequencing"
    then pure (some TypeName.block_height)
    else infer_other_field infer_object f scope
infer_field object infer_object f scope = infer_other_field infer_object f scope

-- The type of an operator, and the demand of the logical ones.
unfoldable pub binary_type : BinaryOp → TypeName
binary_type BinaryOp.add = TypeName.amount
binary_type BinaryOp.sub = TypeName.amount
binary_type BinaryOp.mul = TypeName.amount
binary_type BinaryOp.div = TypeName.amount
binary_type BinaryOp.modulo = TypeName.amount
binary_type _ = TypeName.bool

unfoldable pub is_logical : BinaryOp → Bool
is_logical BinaryOp.and = true
is_logical BinaryOp.or = true
is_logical _ = false

unfoldable pub check_operands : Bool → Option TypeName → Option TypeName → Span → Check (Unit {0})
unfolding demand has_type
check_operands false left right span = skip
check_operands true left right span =
    demand (has_type TypeName.bool left && has_type TypeName.bool right) span
      "logical operators require Bool operands"

unfoldable pub check_operand : UnaryOp → Option TypeName → Span → Check (Unit {0})
unfolding demand has_type
check_operand UnaryOp.negation ty span = demand (has_type TypeName.bool ty) span "`!` requires Bool"
check_operand UnaryOp.negate ty span = skip

unfoldable mutual
  unfolding infer_identifier infer_every check_operand check_operands binary_type is_logical
      infer_call infer_field expr_span

  pub infer_expr : Expr → Scope → Check (Option TypeName)
  infer_expr (Expr.ident i) scope = infer_identifier i scope
  infer_expr (Expr.integer _ _) scope = pure (some TypeName.amount)
  infer_expr (Expr.string _ _) scope = pure (some TypeName.bytes)
  infer_expr (Expr.bool _ _) scope = pure (some TypeName.bool)
  infer_expr (Expr.array elements _) scope = do
    infer_every (infer_exprs elements) scope
    pure (some TypeName.bytes)
  infer_expr (Expr.unary op e _) scope = do
    ty ← infer_expr e scope
    check_operand op ty (expr_span e)
    pure (some TypeName.bool)
  infer_expr (Expr.binary left op right span) scope = do
    left_type ← infer_expr left scope
    right_type ← infer_expr right scope
    check_operands (is_logical op) left_type right_type span
    pure (some (binary_type op))
  infer_expr (Expr.call callee args _) scope =
      infer_call callee (infer_expr callee) (infer_object callee) args (infer_exprs args) scope
  infer_expr (Expr.field object f _) scope = infer_field object (infer_expr object) f scope

  -- The inferences of a list's elements.
  pub infer_exprs : Exprs → List Infer
  infer_exprs nil = []
  infer_exprs (cons e es) = (λ scope. infer_expr e scope) ∷ infer_exprs es

  -- The inference of the object of a field.
  pub infer_object : Expr → Scope → Check (Option TypeName)
  infer_object (Expr.field object _ _) scope = infer_expr object scope
  infer_object _ scope = pure none
