-- ===== src/Lib.antt =====
-- A verification library for the C++ library under ivl/: its search trees, its permutations, its
-- number theory, its bump allocator, its tournament tree, its Grundy values, its graphs, its parser
-- of build.ninja files and its interpreter of a small language.
--
-- The parts, and the files that model them:
--
--   ivl/avl_tree/default.hpp        Avl.antt. A `node<T>` is a tree with its stored depth, and a
--                                   function that takes a `node&` returns what it leaves there.
--                                   Avl/Balance, Avl/Repair: the invariant and its restoration.
--                                   Avl/Sorted, Avl/Insert, Avl/Erase: the tree as a sorted list.
--                                   Avl/Laws: the promises to a client.
--   ivl/permutation/default.hpp     Permutation.antt, with Lookup, Compose, Inverse, Power and
--                                   Equality below it for the proofs.
--   ivl/number_theory/util.hpp      NumberTheory/Prime (with primes.hpp), Power, Gcd and Garner,
--                                   with Bezout, Inverse, Digits, Table and Residues below it.
--   ivl/number_theory/rtmint.hpp,
--   ivl/number_theory/multimint.hpp NumberTheory/Mint, with Runtime below it for rtmint.hpp.
--   ivl/bump-up-down/bump_up.hpp    BumpUp.antt: the range of addresses and `allocate`.
--   ivl/graphs/graph.hpp,
--   ivl/graphs/scc.hpp              Graphs.antt: the graph, and the engine of `SCC`.
--   ivl/structs/turnament.hpp       Tournament.antt: the constructor, `set` and `leaf`;
--                                   Tournament/Search.antt: `find`. Blocks and Descent are about
--                                   its inner loop, Alignment and Round about a round of its
--                                   outer loop.
--   ivl/structs/splay_tree.hpp      SplayTree.antt, with the parent pointers. Values: what a value
--                                   offers. Pointers: when they are right. Context, Rotate, Raise,
--                                   Splay and Place: a place in the tree, the rotations, the loops.
--   ivl/game-theory/impartial.hpp   Games.antt, with Mex for its last two loops; Positions is about
--                                   the game alone.
--   ivl/parsing/basic_parser.hpp    Parsing/Basic: the cursor, its row and its column.
--                                   Parsing/Text: the same operations on the text that is left.
--   ivl/parsing/ninja/default.hpp   Parsing/Ninja. State is the data, Expand the texts with
--                                   variables, Build the `build` declaration, Declare the others,
--                                   Add what they do to the state, File the file and its includes.
--   ivl/langs/tiny                  Tiny. strip-comments.hpp is Tiny/Comments; tokenize.hpp and
--                                   meta.hpp are Tiny/Token and Tiny/Tokenizer; parse.hpp is
--                                   Tiny/Syntax (its structures), Tiny/Parser (expressions) and
--                                   Tiny/Statements; eval.hpp is Tiny/Int64 (`int64_t`), Tiny/Eval
--                                   (expressions) and Tiny/Exec (statements), with the relation
--                                   Exec/BigStep; runit.cpp is Tiny/Run. The modules named
--                                   Progress and Total are about the fuel, and those named
--                                   Grammar state the language with no parser.
--
-- The parsers under ivl/parsing inherit from `basic_parser`. Those of Parsing/Ninja are written
-- over the text that is left, which Parsing/Basic shows to be the same; a `panic` is a fault.
-- What reads a file for an `include` is a parameter, and so is how deep files may include each
-- other.
--
-- The text of a program goes through `strip_comments`, `tokenize`, `parse_program` and
-- `evaluate`, as in ivl/langs/tiny/runit.cpp; Prelude/Result is how each of them can fail. Prelude
-- holds the shared names, lists, integers and Boolean tests.
--
-- Bounds and fuel. `uint64_t` and `uint32_t` keep their wrap-around where a result can reach it;
-- an `int64_t` out of range is undefined behaviour, a fault of its own. A `size_t` that counts or
-- indexes objects in memory is unbounded. Loops that are not structural take fuel: one unit for
-- each character of a text and one more (`strip_comments`, `tokenize`), the second operand and one
-- more (`gcd`), the number itself (`is_prime`), the exponent and one more (`power` of a
-- permutation), ten units for each token and ten more for an expression, and two for each token
-- and two more for a program, one for each character and one more in every loop over a build.ninja
-- file, and one for each move of a line of play (`grundify`). Where fuel runs out the outcome says
-- so, and is no result of the program. A program of the small language need not stop, so `execute`
-- takes any fuel.
--
-- Not modelled: destructors, and moves outside the splay tree (values are not shared), the text
-- that `evaluate` prints (it is the list of the values), iterators, formatters, streams and
-- random numbers. Other parts of the repository with logic of their own are left out for now:
-- the joins and updates of sorted vectors in ivl/algorithm, the segment tree of ivl/alloc,
-- ivl/parsing/make and ivl/json. The rest wraps the kernel, is compile-time machinery, computes
-- with floating point, or is a program for one use.
pub mod Prelude
pub mod Avl
pub mod BumpUp
pub mod Graphs
pub mod Tournament
pub mod Tiny
pub mod Permutation
pub mod NumberTheory
pub mod Parsing
pub mod SplayTree
pub mod Games
