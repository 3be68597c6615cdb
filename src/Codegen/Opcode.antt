-- ===== src/Codegen/Opcode.antt =====
-- compiler/codegen/src/backends/toccata.rs, lib.rs: the opcodes, and their names in the listing.
use kaspa_script.Prelude.{ℕ, String, Option, none, some, List, [], ◌∷◌, ◌==◌, if◌then◌else◌}

abbrev pub op_false : ℕ
op_false = 0x00

abbrev pub op_pushdata1 : ℕ
op_pushdata1 = 0x4c

abbrev pub op_pushdata2 : ℕ
op_pushdata2 = 0x4d

abbrev pub op_pushdata4 : ℕ
op_pushdata4 = 0x4e

abbrev pub op_1 : ℕ
op_1 = 0x51

abbrev pub op_drop : ℕ
op_drop = 0x75

abbrev pub op_dup : ℕ
op_dup = 0x76

abbrev pub op_equal : ℕ
op_equal = 0x87

abbrev pub op_verify : ℕ
op_verify = 0x69

abbrev pub op_not : ℕ
op_not = 0x91

abbrev pub op_add : ℕ
op_add = 0x93

abbrev pub op_sub : ℕ
op_sub = 0x94

abbrev pub op_booland : ℕ
op_booland = 0x9a

abbrev pub op_boolor : ℕ
op_boolor = 0x9b

abbrev pub op_numnotequal : ℕ
op_numnotequal = 0x9e

abbrev pub op_lessthan : ℕ
op_lessthan = 0x9f

abbrev pub op_greaterthan : ℕ
op_greaterthan = 0xa0

abbrev pub op_lessthanorequal : ℕ
op_lessthanorequal = 0xa1

abbrev pub op_greaterthanorequal : ℕ
op_greaterthanorequal = 0xa2

abbrev pub op_sha256 : ℕ
op_sha256 = 0xa8

abbrev pub op_blake2b : ℕ
op_blake2b = 0xaa

abbrev pub op_checksig : ℕ
op_checksig = 0xac

abbrev pub op_checkmultisig : ℕ
op_checkmultisig = 0xae

abbrev pub op_checklocktimeverify : ℕ
op_checklocktimeverify = 0xb0

abbrev pub op_txinputcount : ℕ
op_txinputcount = 0xb3

abbrev pub op_txoutputcount : ℕ
op_txoutputcount = 0xb4

abbrev pub op_txinputamount : ℕ
op_txinputamount = 0xbe

abbrev pub op_txinputspk : ℕ
op_txinputspk = 0xbf

abbrev pub op_txoutputamount : ℕ
op_txoutputamount = 0xc2

abbrev pub op_txoutputspk : ℕ
op_txoutputspk = 0xc3

-- The arms of `opcode_name`.
abbrev pub opcode_names : List (ℕ × String)
opcode_names =
    (0x69, "OP_VERIFY")
    ∷ (0x75, "OP_DROP")
    ∷ (0x76, "OP_DUP")
    ∷ (0x87, "OP_EQUAL")
    ∷ (0x91, "OP_NOT")
    ∷ (0x93, "OP_ADD")
    ∷ (0x94, "OP_SUB")
    ∷ (0x9a, "OP_BOOLAND")
    ∷ (0x9b, "OP_BOOLOR")
    ∷ (0x9c, "OP_NUMEQUAL")
    ∷ (0x9e, "OP_NUMNOTEQUAL")
    ∷ (0x9f, "OP_LESSTHAN")
    ∷ (0xa0, "OP_GREATERTHAN")
    ∷ (0xa1, "OP_LESSTHANOREQUAL")
    ∷ (0xa2, "OP_GREATERTHANOREQUAL")
    ∷ (0xa8, "OP_SHA256")
    ∷ (0xaa, "OP_BLAKE2B")
    ∷ (0xac, "OP_CHECKSIG")
    ∷ (0xae, "OP_CHECKMULTISIG")
    ∷ (0xb0, "OP_CHECKLOCKTIMEVERIFY")
    ∷ (0xb1, "OP_CHECKSEQUENCEVERIFY")
    ∷ (0xb3, "OP_TXINPUTCOUNT")
    ∷ (0xb4, "OP_TXOUTPUTCOUNT")
    ∷ (0xb9, "OP_TXINPUTINDEX")
    ∷ (0xbe, "OP_TXINPUTAMOUNT")
    ∷ (0xbf, "OP_TXINPUTSPK")
    ∷ (0xc2, "OP_TXOUTPUTAMOUNT")
    ∷ (0xc3, "OP_TXOUTPUTSPK")
    ∷ []

lookup_name : ℕ → List (ℕ × String) → Option String
lookup_name opcode [] = none
lookup_name opcode ((o, name) ∷ rest) = if opcode == o then some name else lookup_name opcode rest

unfoldable pub opcode_name : ℕ → Option String
unfolding lookup_name
opcode_name opcode = lookup_name opcode opcode_names
