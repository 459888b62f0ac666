-- ===== src/Lib.antt =====
-- genji, an embedded document database written in Go. SQL text goes through a scanner, a parser
-- and a planner to streams that read and write tables; a table stores documents in a key-value
-- store of an engine, under keys whose byte order is the order of the values. The modelled parts
-- are those that the others stand on.
--
-- MemoryEngine: engine/memoryengine (engine.go, store.go). The engine, its one running transaction
--   and its store handles are one record `State`; items, trees and handles are numbers that point
--   into tables of it, since the functions that Put, Delete, Truncate, CreateStore and DropStore
--   leave for the end of the transaction change them later. `Undo` and `Finish` are those functions
--   as data; MemoryEngine/Transaction runs them. An operation takes the state and returns a result
--   with the next state. The btree of github.com/google/btree is the record BTree of
--   MemoryEngine/Trees: an ordered tree with the laws that its documentation promises of lookup,
--   insertion and removal; `function_tree` shows that they can hold. A cancelled context is the
--   field `cancelled`. MemoryEngine/Valid has the steps and the invariant. MemoryEngine/Iterator is the
--   iterator over a tree that does not change while it runs, of which it takes the record Walk.
-- Binarysort: internal/binarysort/binarysort.go. Buffers are lists of bytes, a uint64 is a number
--   below 2^64, a float64 is its bits; Prelude/Double says how bit patterns compare. The record
--   Base64 has what encoding/base64 makes of an alphabet by RFC 4648; the alphabet is that of the
--   source. Binarysort/Sextets has the order of these encodings. Not modelled: DecodeBase64.
-- Document: document (value.go, document.go, array.go, compare.go). A value is a data type with
--   one constructor per type; FieldBuffer and ValueBuffer are its `Fields` and `Items`. An int64 is
--   an integer whose operations wrap around explicitly (Prelude/Int). Document/Buffer has the
--   operations on documents and paths, Document/Compare the comparison operators,
--   Document/Calculate the arithmetic. The arithmetic of float64 is a parameter, the record
--   Floats, of which nothing is assumed. Values are in memory, so that the errors of documents that
--   are decoded lazily do not occur. Document/Cast has the casts (cast.go) and IsTruthy; what they take
--   from strconv, encoding/base64 and the JSON library is the record Texts. Document/Encode is
--   the ValueEncoder (value_encoding.go), over the record Base64 of Binarysort. Not
--   modelled: JSON and the codecs of document/encoding.
-- Expr: internal/expr (logical.go, comparison.go, operator.go, arithmeric.go). An expression is a
--   data type with one constructor per operator, and those for literals, lists and documents
--   (literal.go); any other expression is a `leaf`, a function from an environment. `eval` is the
--   method Eval of each.
-- Environment: internal/environment/env.go, and the paths of internal/expr/path.go that read it. A
--   document is what its interface offers: a record of GetByField, the fields that Iterate passes on
--   and the error that ends it. Parameters, the transaction and the catalog are left out.
-- Stream: internal/stream (operator.go, scan.go, project.go, concat.go, stream.go). `iterate` is the
--   method Iterate of a chain of operators, which are linked by Prev; the function that it calls works
--   on a state of its own. The environment that an operator uses again for each document is a new
--   one each time, which is the same for a function that does not keep it. A scan of a table or an
--   index is a function of the environment. Stream/Trace describes a stream without the function, as
--   a list of environments and the error behind it. Stream/Ranges has the ranges of
--   primary keys (range.go) and the scan of one, over the keys of a table in order. Not modelled:
--   Sort, Distinct, Set, the aggregation, ranges of indexes, and the operators that write.
--   An operator with nothing before it that is no source passes nothing on, where the code panics.
-- Glob: internal/expr/glob/like.go, the patterns of LIKE. `loop` is the loop of MatchLike, whose state
--   is a record; `step` is one round, with the label `backtrack` as a function. Glob/Meaning says what
--   a pattern means. Strings are lists of runes. The loop over unicode.SimpleFold is a parameter.
-- Planner: internal/planner/optimizer.go. Planner/Fold is precalculateExpr, whose panic is an error
--   there; Planner/Rules the rules that split filters and remove them. A stream is what its last
--   operator reaches by Prev. Not modelled: the other rules, among them the choice of an index.
-- Database: internal/database (table.go, conflict.go, index.go) over engine/engine.go. Database/Store is
--   the interface Store by its contract, the pairs in the order of their keys, of which no call fails.
--   Database/Index is an index over one such store, and Database/Table a table with the store of its
--   documents and its indexes: `insert_with_conflict_resolution` is InsertWithConflictResolution,
--   `delete_document` Delete, `replace_document` Replace, `set`, `exists` and `delete` those of an
--   index. ValidateDocument, the codec and the varints of the standard library are the record
--   Services; Database/Table/Keys has the keys that the scans look for. An error has no state behind it, since its transaction is rolled back. The stores of
--   the indexes exist. Database/Index/Consistent ties an index to the documents of its table; it wants
--   encoded values that never run into the key behind them, which holds of a typed integer
--   (Database/Index/Typed). Not modelled: constraint.go, and the iterations from a pivot.
-- Catalog: internal/catalog/cache.go, with the hooks of internal/database/transaction.go that a rollback
--   runs once the engine has rolled back; `Hook` is such a function as data. The loop of generateUnusedName has fuel, which
--   Catalog/Unused bounds by the number of names taken; the numbers behind a name are the record
--   Numbering. Not modelled: catalog.go, its table and its storage.
-- Parser: the loop of parseExprWithMinPrecedence (internal/sql/parser/expr.go) with the precedences
--   of internal/sql/scanner/token.go. It works on what parseOperator and parseUnaryExpr read; `attach` is
--   the descent along the right hands. Not modelled: the scanner, the other expressions and the
--   statements.
-- Sequence: internal/database/sequence.go. The row of a sequence in the sequence table is the
--   field `lease`; whether it can be stored is an argument of `next` and `release`. The table
--   itself is not modelled.
-- Prelude: names of the libraries, lists, byte slices, int64, float64 and results.
--
-- Loops are recursions on a list or a value, but for that of MatchLike, whose fuel counts the runes
-- of the pattern and of the string, and two of the iterator: the one that loads batches has fuel for
-- one batch more than the tree has items, and a loop over the iterator one round more. Each batch
-- brings at least one new item (itBufSize is 64), and each round passes one. Not modelled: the bolt
-- and badger engines (third-party stores), the driver and the command line (input and output), and
-- so far the codecs, functions of expressions, the catalog behind its cache, constraints, scanner and statements.
pub mod Prelude
pub mod Binarysort
pub mod Catalog
pub mod Database
pub mod Document
pub mod Environment
pub mod Expr
pub mod Glob
pub mod MemoryEngine
pub mod Parser
pub mod Planner
pub mod Sequence
pub mod Stream
