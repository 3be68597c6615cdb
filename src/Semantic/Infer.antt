-- ===== src/Semantic/Infer.antt =====
-- compiler/semantic/src/checker.rs: the type of an expression. A helper that infers parts of its
-- expression is given their inferences.
use Prim.Native.String
use text.Mathlib.Text.{◌==◌ as str_eq}
use kaspa_script.Prelude.{
  ℕ, String, Bool, true, false, List, [], ◌∷◌, Option, none, some, leb, ◌==◌, ◌&&◌, ◌||◌, ◌^◌, ◌-◌,
  if◌then◌else◌,
}
use kaspa_script.Prelude.Text.{member, codes}
use kaspa_script.Syntax.Token.{Span, TypeName, type_eq}
use kaspa_script.Syntax.Ast.{Ident, Expr, Exprs, expr_span, count, first, nil, cons}
use kaspa_script.Semantic.Checker.{Scope, get, Check, ◌>>=◌, ◌>>◌, pure, skip, error}

-- The inference of a part, in a scope.
abbrev pub Infer : Type 0
Infer = Scope → Check (Option TypeName)

-- `matches!(ty, Some(expected))`
unfoldable pub has_type : TypeName → Option TypeName → Bool
unfolding type_eq
has_type expected none = false
has_type expected (some ty) = type_eq ty expected

unfoldable pub first_span : Exprs → Span → Span
unfolding expr_span
first_span nil default = default
first_span (cons e _) default = expr_span e

unfoldable pub undefined_or : Option TypeName → Span → String → Check (Option TypeName)
unfolding error
undefined_or none span name = do
  error span (String.◌++◌ "undefined identifier `" (String.◌++◌ name "`"))
  pure none
undefined_or (some ty) span name = pure (some ty)

unfoldable pub infer_name : String → Span → Infer
unfolding undefined_or get
infer_name name span scope =
    if str_eq name "block"
    then pure (some TypeName.block_height)
    else if str_eq name "covenant_id"
    then pure (some TypeName.covenant_id)
    else if str_eq name "sequencing"
    then pure (some TypeName.hash)
    else if str_eq name "input_count" || str_eq name "output_count"
    then pure (some TypeName.amount)
    else if member name
        ("input" ∷ "output" ∷ "multisig" ∷ "zk_verify" ∷ "sha256" ∷ "blake2b" ∷ "hash160" ∷ [])
    then pure (some TypeName.bool)
    else undefined_or (get name scope) span name

unfoldable pub infer_identifier : Ident → Infer
unfolding infer_name error member
infer_identifier i scope c =
    if member i.name c.spend_names
    then (do
      error i.span "spend functions cannot be referenced from require expressions"
      pure none)
        c
    else infer_name i.name i.span scope c

unfoldable pub infer_first : List Infer → Infer
infer_first [] scope = pure none
infer_first (i ∷ _) scope = i scope

unfoldable pub infer_every : List Infer → Scope → Check (Unit {0})
infer_every [] scope = skip
infer_every (i ∷ is) scope = do _ ← i scope; infer_every is scope

unfoldable pub check_index : Option Expr → Check (Unit {0})
unfolding error expr_span
check_index (some (Expr.integer value span)) =
    if leb value (2 ^ 32 - 1) then skip else error span "input/output index exceeds u32 range"
check_index (some e) =
    error (expr_span e) "input/output index must be a non-negative integer literal"
check_index none = skip

unfoldable pub check_index_call : Exprs → Span → TypeName → Check (Option TypeName)
unfolding check_index count first error
check_index_call args span ty = do
  if count args == 1
      then check_index (first args)
      else error span "input/output requires one integer index"
  pure (some ty)

-- ASCII letters, and `char::is_whitespace`.
unfoldable pub is_ascii_alphabetic : ℕ → Bool
is_ascii_alphabetic c = leb b'a' c && leb c b'z' || leb b'A' c && leb c b'Z'

unfoldable pub is_ascii_alphanumeric : ℕ → Bool
unfolding is_ascii_alphabetic
is_ascii_alphanumeric c = is_ascii_alphabetic c || leb b'0' c && leb c b'9'

unfoldable pub all_name_chars : List ℕ → Bool
unfolding is_ascii_alphanumeric
all_name_chars [] = true
all_name_chars (c ∷ cs) = (c == b'_' || c == b'-' || is_ascii_alphanumeric c) && all_name_chars cs

unfoldable pub valid_name_chars : List ℕ → Bool
unfolding is_ascii_alphabetic all_name_chars
valid_name_chars [] = false
valid_name_chars (c ∷ cs) = (c == b'_' || is_ascii_alphabetic c) && all_name_chars cs

unfoldable pub is_valid_continuation_name : String → Bool
unfolding valid_name_chars codes
is_valid_continuation_name value = valid_name_chars (codes value)
