-- ===== src/Planner/Rules.antt =====
-- Two rules on streams of internal/planner/optimizer.go: SplitANDConditionRule and
-- RemoveUnnecessaryFilterNodesRule. Operators are linked in both directions in the code; a stream
-- here is what its last operator (Stream.Op) reaches by Prev.
pub mod Split
pub mod Keep
pub mod Remove
use genji.Prelude.{ℕ, Bool, true, false, Option, none, some, List, [], ◌∷◌, ◌++◌, if◌then◌else◌}
use genji.Prelude.Results.{Result, ok, err, ◌>>=◌}
use genji.Document.{Value, array, nil}
use genji.Environment.{Environment}
use genji.Expr.{Expr, EvalError, literal, and_op, in_op, truth}
use genji.Stream.{Stream, empty_stream, pipe, Operator, filter}
use genji.Stream.Iterate.{no_operator}

-- splitANDExpr
unfoldable pub split_and_expr : {Env : Type 0} → Expr Env → List (Expr Env)
split_and_expr (and_op a b) = split_and_expr a ++ split_and_expr b
split_and_expr e = e ∷ []

-- InsertAfter of one filter node per expression.
unfoldable pub filters : Stream → List (Expr Environment) → Stream
filters st [] = st
filters st (e ∷ es) = filters (pipe st (filter e)) es

-- The loop behind the last operator. Remove clears the links of the node, so that the loop ends
-- with the first node that it splits. Without a node before it, the new nodes are linked to nothing.
unfoldable pub split_below : Stream → Stream
unfolding split_and_expr filters no_operator
split_below empty_stream = empty_stream
split_below (pipe prev (filter (and_op a b))) =
    if no_operator prev then empty_stream else filters prev (split_and_expr (and_op a b))
split_below (pipe prev op) = pipe (split_below prev) op

-- SplitANDConditionRule. Where the last operator is split, Remove makes the one before it the last,
-- and the new nodes stay behind it.
unfoldable pub split_and_condition : Stream → Stream
unfolding split_below
split_and_condition empty_stream = empty_stream
split_and_condition (pipe prev (filter (and_op a b))) =
    if no_operator prev then filters empty_stream (split_and_expr (and_op a b)) else prev
split_and_condition (pipe prev op) = pipe (split_below prev) op

-- What the second rule does with a node of that truth, given the rest; `none` is the return of an
-- empty stream.
unfoldable pub after_literal :
    Result EvalError Bool → Result EvalError (Option Stream) → Result EvalError (Option Stream)
after_literal (err e) rest = err e
after_literal (ok false) rest = ok none
after_literal (ok true) rest = rest

unfoldable pub keep_node :
    Operator → Result EvalError (Option Stream) → Result EvalError (Option Stream)
keep_node op (ok (some st)) = ok (some (pipe st op))
keep_node op (ok none) = ok none
keep_node op (err e) = err e

unfoldable pub remove_filters : Stream → Result EvalError (Option Stream)
unfolding after_literal keep_node
remove_filters empty_stream = ok (some empty_stream)
remove_filters (pipe prev (filter (literal v))) = after_literal (truth v) (remove_filters prev)
remove_filters (pipe prev (filter (in_op a (literal (array nil))))) = ok none
remove_filters (pipe prev op) = keep_node op (remove_filters prev)

abbrev pub or_empty : Option Stream → Stream
or_empty none = empty_stream
or_empty (some st) = st

-- RemoveUnnecessaryFilterNodesRule
unfoldable pub remove_unnecessary_filters : Stream → Result EvalError Stream
unfolding remove_filters
remove_unnecessary_filters st = do r ← remove_filters st; ok (or_empty r)
