-- ===== src/Parser/Samples.antt =====
-- Expressions with numbers for operands.
use genji.Prelude.{ℕ, ◌≡◌, refl, List, [], ◌∷◌, ◌++◌, arith}
use genji.Prelude.Results.{ok}
use genji.Parser.{
  Operation, Tree, operand, binary, simple, add_op, mul_op, and_op, not_in_op, precedence,
  simple_token, read_token, node_token, admits, attach, build, parse_expr_with_min_precedence,
  or_op,
}
use genji.Parser.InOrder.{first, items_of, parse_expr-items_of}
use genji.Parser.Ordered.{IsOrdered, parse_expr-IsOrdered}
use genji.Parser.RoundTrip.{parse_expr-first}
use genji.Parser.Zero.{parse_expr-not_in}

-- 1 + 2 * 3 OR 4, behind the 1.
abbrev sum_or : List (Operation ℕ × ℕ)
sum_or = (simple add_op, 2) ∷ (simple mul_op, 3) ∷ (simple or_op, 4) ∷ []

abbrev sum_or_tree : Tree ℕ
sum_or_tree =
    binary (simple or_op)
      (binary (simple add_op) (operand 1) (binary (simple mul_op) (operand 2) (operand 3)))
      (operand 4)

abbrev sum_tree : Tree ℕ
sum_tree = binary (simple add_op) (operand 1) (binary (simple mul_op) (operand 2) (operand 3))

read_sum : parse_expr_with_min_precedence 3 1 sum_or ≡ ok (sum_tree, (simple or_op, 4) ∷ [])
unfolding parse_expr_with_min_precedence build admits attach precedence simple_token read_token
    node_token
read_sum = refl

parse_expr-items_of_example :
    (first sum_tree ≡ 1) × (items_of sum_tree ++ (simple or_op, 4) ∷ [] ≡ sum_or)
parse_expr-items_of_example =
    parse_expr-items_of 3 1 sum_tree sum_or ((simple or_op, 4) ∷ []) read_sum

parse_expr-IsOrdered_example : IsOrdered sum_tree
unfolding precedence simple_token read_token node_token
parse_expr-IsOrdered_example =
    parse_expr-IsOrdered 3 1 sum_tree sum_or ((simple or_op, 4) ∷ []) (refl, (refl, (refl, tt)))
      read_sum

parse_expr-first_example :
    parse_expr_with_min_precedence 0 (first sum_or_tree) (items_of sum_or_tree)
    ≡ ok (sum_or_tree, [])
unfolding precedence simple_token read_token node_token
parse_expr-first_example =
    parse_expr-first sum_or_tree
      ((omega arith, tt), (((tt, omega arith), (tt, ((tt, tt), (tt, tt)))), tt))
      (refl, ((refl, (tt, (refl, (tt, tt)))), tt))

-- 1 AND 2 NOT IN 3
parse_expr-not_in_example :
    parse_expr_with_min_precedence {A = ℕ} 0 1 ((simple and_op, 2) ∷ [] ++ (not_in_op, 3) ∷ [])
    ≡ ok (binary not_in_op (binary (simple and_op) (operand 1) (operand 2)) (operand 3), [])
unfolding parse_expr_with_min_precedence build admits attach precedence simple_token read_token
    node_token
parse_expr-not_in_example =
    parse_expr-not_in 1 3 ((simple and_op, 2) ∷ []) (binary (simple and_op) (operand 1) (operand 2))
      refl
