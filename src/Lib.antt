-- ===== src/Lib.antt =====
-- A verification library for the EnlightenedC compiler: models of its compile-time core and of the
-- data structures around it, with the theorems that make them correct.
--
-- The program. Source text goes through the lexer and the parser (lib/frontend) to an AST (lib/ast);
-- semantic analysis (lib/semantics) resolves names in a symbol table, checks types, evaluates
-- constant expressions (lib/eval) and builds the MIR, on which constant folding runs
-- (lib/semantics/mir/passes); lowering (lib/lowering) makes LIR and a control-flow graph; the code
-- generator hands them to LLVM. Tokens and their families (include/tokens.hpp) and the algebra of
-- primitive types (include/semantics/primitives.hpp) are shared by all of these.
--
-- The files.
--   Prelude     natural numbers, lists, options, integers and Boolean tests for the other files
--   Token       include/tokens.hpp and lib/tokens.cpp: the kinds of tokens, `SubToken` families as
--               ranges of values, the walk over a family (`token_range`), predicates on operators
--               and their spellings
--   Primitive   include/semantics/primitives.hpp: `pr_rank`, `pr_promote`, `pr_check_binary_op` and
--               the other functions on `PrimType`
--   Types       include/semantics/types.hpp and lib/semantics/types.cpp: type objects as terms, the
--               qualifiers and their order (Qualified), kinds (Kinds), conversions and casts
--               (Coercion), enumerations (Enum), the members of classes and unions (Record), and the
--               maps that keep one object for each type (Interning)
--   Outcome     the exceptions of a compile-time computation as values
--   Float       floating-point arithmetic, a parameter with no laws
--   Word        two's complement, shifts and truncating division on integers of w bits
--   Value       include/eval/value.hpp and lib/eval/value.cpp: `Value` as a tagged union, its
--               conversions (Cast), the operators on operands of one type (Arith, Bitwise, Compare),
--               the coercions around them (Binary, Unary), and proofs by what they show
--   Mir         include/semantics/mir/mir.hpp (expressions), lib/eval/consteval.cpp (Eval) and
--               lib/semantics/mir/passes/constfold.cpp (Fold), with the types that
--               lib/semantics/validator.cpp gives to expressions (Typed) and the proofs about
--               evaluation (Yields, Sound) and folding (Keeps, Preserve, Retype, Strict)
--   Symbols     include/semantics/symbols.hpp, lib/semantics/symbols.cpp, symdata.hpp and linkage.hpp:
--               scopes, the walker's movements (Walk), lookups (Lookup) and insertions (Insert); the
--               invariant of the tree of scopes (Tree, Grow, Place, Enter, Leave, Reach), that of the
--               pointers to symbols (Owned, Define, Table), lexical scoping (Resolve, Shadowing) and
--               what insertions do (Insertion, Reconcile, Nesting), and the parameters of a function
--               symbol (Params, Defaults)
--   StringLiteral  lib/util/string.cpp (`encode_string_literal`) and lib/frontend/lexer.l
--               (`decode_string_literal`)
--   Cfg         lib/lowering/cfg/walker.cpp: the depth-first walk of a function's blocks
--   LinkedList  include/ds/linkedlist.hpp: nodes with links in a heap, linking and unlinking (Chain),
--               and the sequence of nodes that a list stands for (Refines, Push, Splice)
--   ConstInit   lib/lowering/lir/constinit.cpp: the constants of aggregates, their vectors (Slots), the
--               loops (Aggregates, Positional) and the elements that these fill (Filled)
--   Examples    the theorems at concrete inputs
--
-- How code becomes definitions. A machine integer of w bits keeps its wrap-around as `% 2 ^ w`; a
-- signed one is an integer with a test of its range, and a signed overflow is a fault of its own,
-- undefined in C++. An exception is a result. A method that changes its object takes the old state
-- and returns the new one. A pointer into a store that only grows is an index into a list (scopes,
-- symbols); a pointer that is only compared is a number (types, blocks). A loop without a
-- structural measure runs on fuel: the lookups outwards on the number of scopes, which is enough
-- since a scope is younger than the one around it; the walk of a function's blocks on their number
-- and one more, since each call enters a block for the first time; the decoding of a literal on the
-- length of the text, since each round reads a byte; the calls that wrap a type in a qualifier on
-- four, the depth to which they call each other. That the fuel is enough is part of the
-- theorems about these.
--
-- Parameters. Floating-point operations and conversions are a record of functions (`Floats`) about
-- which nothing is assumed. `std::isprint` is that of the "C" locale. The values of variables in the
-- symbol table are of any type. The constant of a single expression is an argument of the loops over
-- initialisers.
--
-- What is not modelled. Source locations, messages, printing and hashing; the parser and the AST;
-- the layout of types, which the backend computes; of the type context, the maps of named types and of
-- functions, the reference counts of unsized arrays, the builder of declarators and the type ids; the
-- statements of the MIR; the passes between MIR and
-- LLVM; the allocators; the driver, its options and processes. Of the symbol table, mangled names;
-- of values, `ValueRange`; of linked lists, insertion after a node and by index, moves, swaps and copies. The
-- sizes that `sizeof` yields are arguments of the nodes.
pub mod Prelude
pub mod Token
pub mod Types
pub mod Primitive
pub mod Outcome
pub mod Float
pub mod Word
pub mod Value
pub mod Mir
pub mod Examples
pub mod Symbols
pub mod StringLiteral
pub mod Cfg
pub mod LinkedList
pub mod ConstInit
