-- ===== src/Lib.antt =====
-- Verification of the Hash compiler's core logic.
--
-- Parts and files
-- * The virtual machine, compiler/hash-vm. Vm/Register models src/register.rs (256 registers of 8
--   bytes), Vm/Stack src/stack.rs, Vm/Error src/error.rs, Vm/Bytecode the instructions of
--   src/bytecode.rs. Vm/Interpreter holds the state of src/vm.rs and the monad `Exec` in which the
--   arms of `run_next_instruction` are written: a state that a failed or panicked arm leaves as it
--   was at that point. Vm/Arms has the arms, Vm/Step the `match`, Vm/Run the loop `run`. Vm/Alu models
--   the integer operations of Rust that the arms call; Vm/Float takes IEEE arithmetic as a parameter.
-- * Exhaustiveness checking, compiler/hash-exhaustiveness. Exhaustiveness/Range models the integer
--   ranges of src/range.rs, their borders and their splitting (`IntRange`, `IntBorder`,
--   `SplitIntRange`), Exhaustiveness/Array the array patterns of src/list.rs (`ArrayKind`,
--   `SplitVarList`), Exhaustiveness/Construct the constructors of src/construct.rs, which call both
--   (`split_ctor`, `is_ctor_covered_by`, `is_ctor_covered_by_any`), Exhaustiveness/Wildcard the
--   splitting of a type's constructors and the missing ones of src/wildcard.rs, which call those.
--   The columns of patterns are of single constructors, variants, ranges or arrays; strings are
--   constructors too, and of a type that cannot be listed NonExhaustive is the only one.
-- * Utilities, compiler/hash-utils. Utils/RangeMap models src/range_map.rs, the map from ranges of
--   keys to values.
-- * Targets, compiler/hash-target. Target/Size models src/size.rs, Target/Alignment
--   src/alignment.rs, Target/Align `align_to` of src/size.rs, which needs both. Alignments call sizes
--   (`from_bits`, `restrict_to`). Target/Primitives models src/primitives.rs, Target/DataLayout
--   src/data_layout.rs, Target/DataLayout/Parse the reading of LLVM's string there, Target/Abi and
--   Target/Equal the integers, scalars and representations of src/abi.rs.
-- * Layouts in memory, compiler/hash-repr. Repr/Layout models the layouts of src/lib.rs and their shapes;
--   the rest is src/compute.rs: Repr/Primitive the types without parts, Repr/Compound slices, arrays and
--   unions, Repr/Placement the order and the places of the fields of a variant, Repr/ScalarLike the
--   aggregates passed as scalars, Repr/Univariant `compute_layout_of_univariant`, which calls both,
--   Repr/Discriminant the integer of a discriminant (with src/ty.rs), Repr/EnumAbi `compute_enum_abi`,
--   Repr/Enum `compute_layout_of_enum`, which lays out its variants one by one, and Repr/Adt the choice
--   among these. They call sizes and alignments, the data layout and the scalars of the target.
-- * The lexer, compiler/hash-lexer, with the tokens of compiler/hash-token. Lexer/Text has characters and
--   strings as Rust has them and src/utils.rs, Lexer/Token the delimiters, keywords and token kinds,
--   Lexer/State the struct `Lexer` of src/lib.rs with its cursor (`peek`, `next`, `eat_while_and_slice`)
--   and the monad `Lex` of its functions, Lexer/Number names and numbers, Lexer/Literal characters and
--   strings, Lexer/Trivia white space and comments, Lexer/Tokens `advance_token`, `eat_token_tree` and
--   `tokenise`. Lexer/At and Lexer/Step have the lemmas on the cursor between two parts of the source
--   and on a step at a token; Lexer/Comment, Lexer/Nested, Lexer/Word, Lexer/Names and Lexer/Unclosed
--   are about comments, names, sources of names and delimiters that stay open.
-- Prelude holds what these share: lists over native numbers, Boolean tests, byte strings, integers.
-- The interpreter owns a stack and a register set and calls their operations; `run` calls `step` and
-- sets the instruction pointer. Wildcards are split by the splitting of constructors, which calls that
-- of ranges and arrays. Layouts call the targets. Else the machine, the checker, the lexer, the layouts
-- and the utilities do not call each other.
--
-- Conventions
-- Machine integers are natural numbers with their wrap-around written out. A register is a list of
-- 8 bytes, most significant first. Panics are values: `panic` of `Outcome` in the machine, `none`
-- elsewhere, `panicked` of `Ran` in the lexer and of `Laid` in the layouts, where `too_large` is the
-- `None` of a layout that reaches the bound on sizes. The lexer reads its source by an unchecked slice: a
-- read outside the source or inside a character is `undefined`. A character is its code point, a
-- source has fewer than 2^32 bytes, and an interned string is its place in the local table;
-- `is_combining_mark`, which a library gives, is a parameter. The argument `checks` of the arms says
-- whether the build checks for overflow, which decides between a panic and a wrapped result in shifts
-- and negations; the other parts are those of a build that checks.
--
-- Fuel
-- `run` takes the number of rounds of its loop, and `none` is a run that has not ended; what is
-- said of it holds for every fuel above zero. The loop of `Alignment::from_bytes` is given as many
-- rounds as the size counts, and the binary search one more than the map has entries; the bounds are
-- enough since each round halves a positive number or narrows the search.
-- `tokenise`, `advance_token` and the loop over the tokens of a tree count their nested calls, which the
-- code does not bound, and `unfinished` is a run that the fuel does not end. The loops over comments
-- and white space get a round more than the source has bytes, since each takes a character. The bits of
-- the number of variants are counted in 64 rounds, since a `usize` has no more.
--
-- Not modelled
-- The recursion of `layout_of_ty` over interned types with its cache: the layouts of the fields are given;
-- `TyInfo` and the pointees of pointers; the tables of targets.
-- The bytecode builder and the heap of the machine; the methods of the exhaustiveness checker that
-- need types, which give the constructors of a type; the matrix of patterns; the printing of sizes;
-- the reports of errors; and the other crates of the compiler, of which the parser, the type checker
-- and the code generators are the largest.
pub mod Prelude
pub mod Vm
pub mod Exhaustiveness
pub mod Utils
pub mod Repr
pub mod Target
pub mod Lexer
