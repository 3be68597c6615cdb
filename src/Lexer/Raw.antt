-- ===== src/Lexer/Raw.antt =====
-- compiler/lexer/src/lexer.rs: the raw tokens, whose rules are a `logos` derive, and their kinds.
use kaspa_script.Prelude.{String, Option, none, some}
use kaspa_script.Syntax.Token.{TypeName}
use kaspa_script.Syntax.Kind.{TokenKind}

pub data RawToken : Type 0 where
  skip contract params spend require let_word if_word else_word return_word true_word false_word
        covenant covenant_id zk_verify finality_depth sequencing multisig input_builtin
        output_builtin block :
      RawToken
  public_key signature hash block_height amount bool bytes covenant_id_type zk_proof utxo output
        input :
      RawToken
  equal equal_equal bang bang_equal greater greater_equal less less_equal and_and or_or plus minus
        star slash percent arrow left_brace right_brace left_paren right_paren left_bracket
        right_bracket comma colon semicolon dot :
      RawToken
  integer string identifier : String → RawToken

unfoldable pub into_token_kind : RawToken → Option TokenKind
into_token_kind skip = none
into_token_kind contract = some TokenKind.contract
into_token_kind params = some TokenKind.params
into_token_kind spend = some TokenKind.spend
into_token_kind require = some TokenKind.require
into_token_kind let_word = some TokenKind.let_word
into_token_kind if_word = some TokenKind.if_word
into_token_kind else_word = some TokenKind.else_word
into_token_kind return_word = some TokenKind.return_word
into_token_kind true_word = some TokenKind.true_word
into_token_kind false_word = some TokenKind.false_word
into_token_kind covenant = some TokenKind.covenant
into_token_kind covenant_id = some TokenKind.covenant_id
into_token_kind zk_verify = some TokenKind.zk_verify
into_token_kind finality_depth = some TokenKind.finality_depth
into_token_kind sequencing = some TokenKind.sequencing
into_token_kind multisig = some TokenKind.multisig
into_token_kind input_builtin = some TokenKind.input_builtin
into_token_kind output_builtin = some TokenKind.output_builtin
into_token_kind block = some TokenKind.block
into_token_kind public_key = some (TokenKind.type TypeName.public_key)
into_token_kind signature = some (TokenKind.type TypeName.signature)
into_token_kind hash = some (TokenKind.type TypeName.hash)
into_token_kind block_height = some (TokenKind.type TypeName.block_height)
into_token_kind amount = some (TokenKind.type TypeName.amount)
into_token_kind bool = some (TokenKind.type TypeName.bool)
into_token_kind bytes = some (TokenKind.type TypeName.bytes)
into_token_kind covenant_id_type = some (TokenKind.type TypeName.covenant_id)
into_token_kind zk_proof = some (TokenKind.type TypeName.zk_proof)
into_token_kind utxo = some (TokenKind.type TypeName.utxo)
into_token_kind output = some (TokenKind.type TypeName.output)
into_token_kind input = some (TokenKind.type TypeName.input)
into_token_kind equal = some TokenKind.equal
into_token_kind equal_equal = some TokenKind.equal_equal
into_token_kind bang = some TokenKind.bang
into_token_kind bang_equal = some TokenKind.bang_equal
into_token_kind greater = some TokenKind.greater
into_token_kind greater_equal = some TokenKind.greater_equal
into_token_kind less = some TokenKind.less
into_token_kind less_equal = some TokenKind.less_equal
into_token_kind and_and = some TokenKind.and_and
into_token_kind or_or = some TokenKind.or_or
into_token_kind plus = some TokenKind.plus
into_token_kind minus = some TokenKind.minus
into_token_kind star = some TokenKind.star
into_token_kind slash = some TokenKind.slash
into_token_kind percent = some TokenKind.percent
into_token_kind arrow = some TokenKind.arrow
into_token_kind left_brace = some TokenKind.left_brace
into_token_kind right_brace = some TokenKind.right_brace
into_token_kind left_paren = some TokenKind.left_paren
into_token_kind right_paren = some TokenKind.right_paren
into_token_kind left_bracket = some TokenKind.left_bracket
into_token_kind right_bracket = some TokenKind.right_bracket
into_token_kind comma = some TokenKind.comma
into_token_kind colon = some TokenKind.colon
into_token_kind semicolon = some TokenKind.semicolon
into_token_kind dot = some TokenKind.dot
into_token_kind (integer value) = some (TokenKind.integer value)
into_token_kind (string value) = some (TokenKind.string value)
into_token_kind (identifier value) = some (TokenKind.identifier value)
