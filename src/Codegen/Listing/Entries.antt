-- ===== src/Codegen/Listing/Entries.antt =====
-- What a listing of compiled code shows: the entry of each instruction, and of each push.
use Prim.Native.String
use kaspa_script.Prelude.{
  ℕ, String, true, false, List, [], ◌∷◌, ◌++◌, length, leb, ◌==◌, if◌then◌else◌,
}
use kaspa_script.Prelude.Text.{decimal, as_bytes}
use kaspa_script.Syntax.Token.{type_text}
use kaspa_script.Ir.Instruction.{Instruction, InstructionKind, Value}
use kaspa_script.Codegen.Push.{script_number}
use kaspa_script.Codegen.Disassemble.{bytecode_hex}

abbrev pub sized : String → List ℕ → String
sized name bytes = String.◌++◌ name (String.◌++◌ " 0x" (bytecode_hex bytes))

-- The entry of a data push, by the length of the data.
unfoldable pub data_entry : List ℕ → String
data_entry [] = "OP_0"
data_entry (b ∷ bs) =
    let bytes = b ∷ bs in
    let n = length bytes in
    if leb n 75
    then sized (String.◌++◌ "OP_DATA_" (decimal n)) bytes
    else if leb n 255
    then sized "OP_PUSHDATA1" bytes
    else if leb n 65535
    then sized "OP_PUSHDATA2" bytes
    else sized "OP_PUSHDATA4" bytes

unfoldable pub number_entry : ℕ → String
unfolding data_entry
number_entry n =
    if n == 0
    then "OP_0"
    else if leb n 16
    then String.◌++◌ "OP_" (decimal n)
    else data_entry (script_number n)

unfoldable pub value_entry : Value → String
unfolding number_entry data_entry
value_entry (Value.integer n) = number_entry n
value_entry (Value.bool true) = "OP_1"
value_entry (Value.bool false) = "OP_0"
value_entry (Value.bytes bytes) = data_entry bytes
value_entry (Value.string s) = data_entry (as_bytes s)
value_entry (Value.symbol s) = data_entry (as_bytes s)
value_entry (Value.type ty) = data_entry (as_bytes (type_text ty))

-- An instruction with no encoding has no entry.
unfoldable pub kind_entries : InstructionKind → List String
unfolding value_entry number_entry
kind_entries (InstructionKind.push v) = value_entry v ∷ []
kind_entries InstructionKind.drop = "OP_DROP" ∷ []
kind_entries InstructionKind.dup = "OP_DUP" ∷ []
kind_entries (InstructionKind.input_value i) = number_entry i ∷ "OP_TXINPUTAMOUNT" ∷ []
kind_entries (InstructionKind.input_script i) = number_entry i ∷ "OP_TXINPUTSPK" ∷ []
kind_entries (InstructionKind.output_value i) = number_entry i ∷ "OP_TXOUTPUTAMOUNT" ∷ []
kind_entries (InstructionKind.output_script i) = number_entry i ∷ "OP_TXOUTPUTSPK" ∷ []
kind_entries InstructionKind.output_count = "OP_TXOUTPUTCOUNT" ∷ []
kind_entries InstructionKind.input_count = "OP_TXINPUTCOUNT" ∷ []
kind_entries (InstructionKind.check_sig _) = "OP_CHECKSIG" ∷ []
kind_entries (InstructionKind.check_multi_sig _ n) = number_entry n ∷ "OP_CHECKMULTISIG" ∷ []
kind_entries (InstructionKind.check_lock_height h) =
    number_entry h ∷ "OP_CHECKLOCKTIMEVERIFY" ∷ "OP_1" ∷ []
kind_entries (InstructionKind.check_lock_time h) =
    number_entry h ∷ "OP_CHECKLOCKTIMEVERIFY" ∷ "OP_1" ∷ []
kind_entries InstructionKind.check_lock_height_from_stack = "OP_CHECKLOCKTIMEVERIFY" ∷ "OP_1" ∷ []
kind_entries InstructionKind.check_lock_time_from_stack = "OP_CHECKLOCKTIMEVERIFY" ∷ "OP_1" ∷ []
kind_entries InstructionKind.sha256 = "OP_SHA256" ∷ []
kind_entries InstructionKind.blake2b = "OP_BLAKE2B" ∷ []
kind_entries InstructionKind.verify = "OP_VERIFY" ∷ []
kind_entries InstructionKind.equal = "OP_EQUAL" ∷ []
kind_entries InstructionKind.not_equal = "OP_NUMNOTEQUAL" ∷ []
kind_entries InstructionKind.less_than = "OP_LESSTHAN" ∷ []
kind_entries InstructionKind.less_than_or_equal = "OP_LESSTHANOREQUAL" ∷ []
kind_entries InstructionKind.greater_than = "OP_GREATERTHAN" ∷ []
kind_entries InstructionKind.greater_than_or_equal = "OP_GREATERTHANOREQUAL" ∷ []
kind_entries InstructionKind.and = "OP_BOOLAND" ∷ []
kind_entries InstructionKind.or = "OP_BOOLOR" ∷ []
kind_entries InstructionKind.negation = "OP_NOT" ∷ []
kind_entries InstructionKind.add = "OP_ADD" ∷ []
kind_entries InstructionKind.sub = "OP_SUB" ∷ []
kind_entries _ = []

unfoldable pub listing : List Instruction → List String
unfolding kind_entries
listing [] = []
listing (i ∷ is) = kind_entries i.kind ++ listing is
