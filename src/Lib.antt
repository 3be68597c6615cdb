-- ===== src/Lib.antt =====
-- KaspaScript: the compiler from source text to Kaspa script bytecode.
--
-- The compiler is a chain of crates under compiler/: the lexer and the parser make a syntax tree, the
-- semantic checker accepts it or collects errors, the IR lowering turns each spend into a list of
-- opcode-agnostic instructions, and the code generator checks each instruction against a registry of
-- source-grounding records, encodes it, and puts the bytecode into an artifact with the warnings. A
-- disassembler lists an artifact's bytecode again, which is how an artifact is verified.
--
--   Prelude     the shared names: Boolean tests, lists over native numbers, `Result` with `?`, texts
--   Syntax      compiler/lexer/src/token.rs and compiler/parser/src/ast.rs: spans, type names, token kinds
--               and the tree. `Vec<Expr>` is `Exprs`. Rust's names that are keywords or taken here are
--               changed: `Not` is `negation`, `Mod` is `modulo`, `Let` is `let_stmt`, `If` is `if_word`
--   Lexer       compiler/lexer/src/lexer.rs: Raw (raw tokens and their kinds) and Lex (`lex_file`, its two
--               tests on the text, `decode_string`). The proofs are in Strings and Comments
--   Parser      compiler/parser/src/parser.rs: State (the tokens, the cursor and the steps of one token),
--               Expressions, Statements and Programs (`parse_program`, `parse_file`). What the code reads
--               from `self` without writing it is the record `Parser`; the cursor is passed in and returned.
--               Grammar is an independent description of the expressions; the proofs are in Ends and Sound
--   Semantic    compiler/semantic/src: Failure (the errors), Location (`locate` of
--               compiler/lexer/src/lexer.rs), Checker (scopes and the checker's state), Infer and Calls
--               (type inference), Shape (transaction counts, indexes and continuation names), Kips (the
--               KIP requirements), Analyze (parameters, statements, spends, contracts, `analyze_program`).
--               A method of `Checker` is a function from the state to its result and the new state. The
--               proofs are in Growing, GrowingExpr, GrowingStmt, Shape/Indexes, Shape/Counts, InRange, Fresh,
--               SpendMet, Accepted and Kips/Sorted
--   Ir          compiler/ir/src: Instruction and Program (instructions.rs, types.rs, gen.rs), Emit,
--               LowerCall, Lower and LowerProgram (gen.rs). The output vector is passed in and returned. The
--               proofs are in Depth, which reads the instructions as stack effects, and in Lower/Path
--   Codegen     compiler/codegen/src: Target and Grounding with its registries (lib.rs, grounding.rs),
--               Opcode, Push, Encode and Compile (backends/toccata.rs), Disassemble (lib.rs). The proofs
--               are in Listing (the independent listing of instructions, and that the disassembler gives
--               it), Number (script numbers), Push/Range, Support, Compile/Bytecode, Compile/Warnings,
--               Compile/Interface, Compile/Refusals, Disassemble/Total, Grounding/Required and Target/Label
--   Application compiler/model/src/lib.rs (Model, Assurances, Display) and compiler/ir/src/application.rs
--               (Normalize, Shape, Successors, Signing, Build): what a program means for wallets and tools. A
--               `BTreeSet` is the ascending list of its elements; `out.push` is the list that is returned.
--               The proofs are in Ordered, Path, Lookup, Continuation, Letters, Exact and Bounded
--   Pipeline    Files: `analyze_file`, `lower_file` and `compile_file`, which run the stages one after another;
--               Compiled has what holds over all of them
--   Protocol    compiler/protocol/src/lib.rs: Manifest (features and the checks of requirements) and Targets
--               (the manifests). The proofs are in Requirements
--   Kernel      kernel/src/lib.rs: Model (blueprints and evidence), Fees (`minimum_standard_fee`) and Readiness
--               (`readiness_report`; `max_by_key` is a fold that keeps the last of the greatest). The proofs
--               are in Ready and in Fees
--
-- Bounds and fuel. Bytes and machine integers are native numbers; a cast keeps its modulus and a checked
-- addition its bound of 2^64 (a 64-bit `usize`). The numbers of a tree are not bounded by their type;
-- the parser's are below 2^64. The parser's functions run on fuel, eight units for each token and eight
-- more: each call takes one, at most six calls follow each other without a token being read, and Ends
-- shows that this is enough. The disassembler's loop runs on fuel, the length of the bytecode, which is
-- enough since each round takes a byte; `decimal` runs on more rounds than the number has digits. A
-- `HashSet` is a list that is searched before it is added to, and a `HashMap` of types a list of pairs
-- with the newest first.
--
-- The stack effects in Ir.Depth and the reading of a script number in Codegen.Number are those that the
-- encoder's comments and the opcodes' names state; the script engine itself is another program. SHA-256, the
-- raw tokens that the `logos` derive makes from a source, the text that `{:?}` writes for a string and the
-- package's version are parameters.
--
-- Not modelled: the rules of the tokens, which are generated code; the rest of the kernel (the
-- builder, previews, profiles, packages), sdk, cli and compatibility/toccata-v2, which use the
-- compiler's artifacts; the `Display` of IR programs and of most errors, and
-- serialization; `lex`, `parse`, `analyze` and `lower`, which name the file `<source>`.
pub mod Prelude
pub mod Syntax
pub mod Lexer
pub mod Parser
pub mod Semantic
pub mod Application
pub mod Ir
pub mod Codegen
pub mod Pipeline
pub mod Protocol
pub mod Kernel
