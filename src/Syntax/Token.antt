-- ===== src/Syntax/Token.antt =====
-- compiler/lexer/src/token.rs: spans, type names, token kinds and tokens.
use kaspa_script.Prelude.{ℕ, String, Bool, true, false}

-- Byte span within a source file.
pub record Span : Type 0 where
  pub start : ℕ
  pub end : ℕ

abbrev pub new_span : ℕ → ℕ → Span
new_span s e = record { start = s; end = e }

-- A source location resolved from a byte offset.
pub record SourceLocation : Type 0 where
  pub file : String
  pub line : ℕ
  pub column : ℕ

pub data TypeName : Type 0 where
  public_key signature hash block_height amount bool bytes covenant_id zk_proof utxo output input :
      TypeName

-- `ty == other`, the derived equality of the enum.
unfoldable pub type_eq : TypeName → TypeName → Bool
type_eq public_key public_key = true
type_eq signature signature = true
type_eq hash hash = true
type_eq block_height block_height = true
type_eq amount amount = true
type_eq bool bool = true
type_eq bytes bytes = true
type_eq covenant_id covenant_id = true
type_eq zk_proof zk_proof = true
type_eq utxo utxo = true
type_eq output output = true
type_eq input input = true
type_eq _ _ = false

-- `{ty:?}`, the derived `Debug` text of the enum.
unfoldable pub type_text : TypeName → String
type_text public_key = "PublicKey"
type_text signature = "Signature"
type_text hash = "Hash"
type_text block_height = "BlockHeight"
type_text amount = "Amount"
type_text bool = "Bool"
type_text bytes = "Bytes"
type_text covenant_id = "CovenantID"
type_text zk_proof = "ZKProof"
type_text utxo = "UTXO"
type_text output = "Output"
type_text input = "Input"
