-- ===== src/Planner/Samples.antt =====
-- The rules on small expressions and streams.
use genji.Prelude.{◌≡◌, refl, true, false, none, [], ◌∷◌}
use genji.Prelude.Int.{pos}
use genji.Document.{bool, integer, end, field}
use genji.Document.Floats.{Floats}
use genji.Environment.{Environment, top, buffer, path_expr}
use genji.Expr.{Expr, literal, and_op, or_op, eval, eval_and, truth}
use genji.Document.Cast.{is_truthy, is_zero_value}
use genji.Stream.{Stream, empty_stream, pipe, documents, filter, take}
use genji.Stream.Trace.{trace}
use genji.Planner.Fold.{precalculate_expr, is_literal}
use genji.Planner.Fold.Sound.{between_free, eval-precalculate_expr}
use genji.Planner.Rules.{split_and_condition, remove_unnecessary_filters}
use genji.Planner.Rules.Keep.{surviving, started, trace-split_and_condition}
use genji.Planner.Rules.Remove.{trace-remove_unnecessary_filters}

abbrev zero_floats : Floats
zero_floats = record {
  of_int64 = λ i. 0;
  to_int64 = λ d. pos 0;
  add_float = λ x y. 0;
  sub_float = λ x y. 0;
  mul_float = λ x y. 0;
  div_float = λ x y. 0;
  mod_float = λ x y. 0;
}

abbrev nowhere : Environment
nowhere = top none none

-- The path `a`.
abbrev field_a : Expr Environment
field_a = path_expr (record { field_name = 97 ∷ []; array_index = 0 } ∷ [])

abbrev docs : Stream
docs = pipe empty_stream (documents (buffer (field (97 ∷ []) (integer (pos 1)) end) ∷ []))

-- (true AND false) OR a
abbrev tested : Expr Environment
tested = or_op (and_op (literal (bool true)) (literal (bool false))) field_a

eval-precalculate_expr_example :
    eval zero_floats (top none none) (or_op (literal (bool false)) field_a)
    ≡ eval zero_floats (top none none) tested
unfolding precalculate_expr between_free is_literal eval eval_and truth is_truthy is_zero_value
eval-precalculate_expr_example =
    eval-precalculate_expr zero_floats nowhere nowhere tested (or_op (literal (bool false)) field_a)
      refl refl

trace-split_and_condition_example :
    trace zero_floats
      (split_and_condition
        (pipe (pipe docs (filter (and_op field_a (literal (bool true))))) (take (pos 1))))
      nowhere
    ≡ trace zero_floats
        (pipe (pipe docs (filter (and_op field_a (literal (bool true))))) (take (pos 1)))
        nowhere
unfolding surviving started
trace-split_and_condition_example =
    trace-split_and_condition zero_floats
      (pipe (pipe docs (filter (and_op field_a (literal (bool true))))) (take (pos 1))) nowhere refl

trace-remove_unnecessary_filters_example :
    (trace zero_floats (pipe docs (take (pos 1))) nowhere).0
    ≡ (trace zero_floats (pipe (pipe docs (filter (literal (bool true)))) (take (pos 1))) nowhere).0
unfolding remove_unnecessary_filters started truth is_truthy is_zero_value
trace-remove_unnecessary_filters_example =
    trace-remove_unnecessary_filters zero_floats
      (pipe (pipe docs (filter (literal (bool true)))) (take (pos 1))) (pipe docs (take (pos 1)))
      nowhere refl refl
