-- ===== src/Syntax/Kind.antt =====
-- compiler/lexer/src/token.rs: token kinds and tokens.
use Prim.Native.String
use kaspa_script.Prelude.{ℕ, String}
use kaspa_script.Syntax.Token.{Span, TypeName, type_text}

pub data TokenKind : Type 0 where
  contract params spend require let_word if_word else_word return_word true_word false_word covenant
        covenant_id zk_verify finality_depth sequencing multisig input_builtin output_builtin
        block :
      TokenKind
  type : TypeName → TokenKind
  identifier integer string : String → TokenKind
  equal equal_equal bang bang_equal greater greater_equal less less_equal and_and or_or plus minus
        star slash percent arrow left_brace right_brace left_paren right_paren left_bracket
        right_bracket comma colon semicolon dot :
      TokenKind

pub record Token : Type 0 where
  pub kind : TokenKind
  pub span : Span

-- `std::mem::discriminant`: the constructor's place, without its argument.
unfoldable pub discriminant : TokenKind → ℕ
discriminant contract = 0
discriminant params = 1
discriminant spend = 2
discriminant require = 3
discriminant let_word = 4
discriminant if_word = 5
discriminant else_word = 6
discriminant return_word = 7
discriminant true_word = 8
discriminant false_word = 9
discriminant covenant = 10
discriminant covenant_id = 11
discriminant zk_verify = 12
discriminant finality_depth = 13
discriminant sequencing = 14
discriminant multisig = 15
discriminant input_builtin = 16
discriminant output_builtin = 17
discriminant block = 18
discriminant (type _) = 19
discriminant (identifier _) = 20
discriminant (integer _) = 21
discriminant (string _) = 22
discriminant equal = 23
discriminant equal_equal = 24
discriminant bang = 25
discriminant bang_equal = 26
discriminant greater = 27
discriminant greater_equal = 28
discriminant less = 29
discriminant less_equal = 30
discriminant and_and = 31
discriminant or_or = 32
discriminant plus = 33
discriminant minus = 34
discriminant star = 35
discriminant slash = 36
discriminant percent = 37
discriminant arrow = 38
discriminant left_brace = 39
discriminant right_brace = 40
discriminant left_paren = 41
discriminant right_paren = 42
discriminant left_bracket = 43
discriminant right_bracket = 44
discriminant comma = 45
discriminant colon = 46
discriminant semicolon = 47
discriminant dot = 48

-- `{kind:?}`, the derived `Debug` text of a kind that carries no text
unfoldable pub kind_text : TokenKind → String
kind_text contract = "Contract"
kind_text params = "Params"
kind_text spend = "Spend"
kind_text require = "Require"
kind_text let_word = "Let"
kind_text if_word = "If"
kind_text else_word = "Else"
kind_text return_word = "Return"
kind_text true_word = "True"
kind_text false_word = "False"
kind_text covenant = "Covenant"
kind_text covenant_id = "CovenantId"
kind_text zk_verify = "ZkVerify"
kind_text finality_depth = "FinalityDepth"
kind_text sequencing = "Sequencing"
kind_text multisig = "Multisig"
kind_text input_builtin = "InputBuiltin"
kind_text output_builtin = "OutputBuiltin"
kind_text block = "Block"
kind_text (type ty) = String.◌++◌ "Type(" (String.◌++◌ (type_text ty) ")")
kind_text equal = "Equal"
kind_text equal_equal = "EqualEqual"
kind_text bang = "Bang"
kind_text bang_equal = "BangEqual"
kind_text greater = "Greater"
kind_text greater_equal = "GreaterEqual"
kind_text less = "Less"
kind_text less_equal = "LessEqual"
kind_text and_and = "AndAnd"
kind_text or_or = "OrOr"
kind_text plus = "Plus"
kind_text minus = "Minus"
kind_text star = "Star"
kind_text slash = "Slash"
kind_text percent = "Percent"
kind_text arrow = "Arrow"
kind_text left_brace = "LeftBrace"
kind_text right_brace = "RightBrace"
kind_text left_paren = "LeftParen"
kind_text right_paren = "RightParen"
kind_text left_bracket = "LeftBracket"
kind_text right_bracket = "RightBracket"
kind_text comma = "Comma"
kind_text colon = "Colon"
kind_text semicolon = "Semicolon"
kind_text dot = "Dot"
kind_text _ = ""
