-- ===== src/Parser.antt =====
-- internal/sql/parser/expr.go: the loop of parseExprWithMinPrecedence, which builds the tree of the binary
-- operators, with the precedences of internal/sql/scanner/token.go and the tokens of the operators of
-- internal/expr. The input is what parseOperator and parseUnaryExpr read: an operator with the operand
-- behind it, one after the other. An operand, of the type `A`, is no binary operator, and nothing follows
-- an operand NOT, which reads the rest itself. The lists of allowed tokens are not modelled.
pub mod InOrder
pub mod Ordered
pub mod RoundTrip
pub mod Zero
mod Samples
use genji.Prelude.{ℕ, Bool, true, false, not, List, [], ◌∷◌, ◌++◌, ltb, leb, if◌then◌else◌}
use genji.Prelude.Results.{Result, ok, err, ◌>>=◌}

-- The operators of the scanner, and NOT.
pub data Token : Type 0 where
  add_token sub_token mul_token div_token mod_token bitwise_and_token bitwise_or_token : Token
  bitwise_xor_token and_token or_token eq_token neq_token eqregex_token neqregex_token : Token
  lt_token lte_token gt_token gte_token in_token nin_token is_token isn_token like_token : Token
  concat_token between_token not_token : Token

-- Token.Precedence
unfoldable pub precedence : Token → ℕ
precedence or_token = 1
precedence and_token = 2
precedence eq_token = 3
precedence neq_token = 3
precedence is_token = 3
precedence in_token = 3
precedence like_token = 3
precedence eqregex_token = 3
precedence neqregex_token = 3
precedence between_token = 3
precedence lt_token = 4
precedence lte_token = 4
precedence gt_token = 4
precedence gte_token = 4
precedence bitwise_or_token = 5
precedence bitwise_xor_token = 5
precedence bitwise_and_token = 5
precedence add_token = 6
precedence sub_token = 6
precedence mul_token = 7
precedence div_token = 7
precedence mod_token = 7
precedence concat_token = 8
precedence _ = 0

-- The operators whose tree node has the precedence of the token that was read.
pub data Simple : Type 0 where
  eq_op neq_op gt_op gte_op lt_op lte_op and_op or_op add_op sub_op mul_op div_op mod_op : Simple
  bitwise_and_op bitwise_or_op bitwise_xor_op in_op is_op like_op concat_op : Simple

-- What parseOperator returns; BETWEEN has its lower bound, which is read before AND.
pub data Operation (A : Type 0) : Type 0 where
  simple : Simple → Operation A
  between_op : A → Operation A
  not_in_op not_like_op is_not_op : Operation A

unfoldable pub simple_token : Simple → Token
simple_token eq_op = eq_token
simple_token neq_op = neq_token
simple_token gt_op = gt_token
simple_token gte_op = gte_token
simple_token lt_op = lt_token
simple_token lte_op = lte_token
simple_token and_op = and_token
simple_token or_op = or_token
simple_token add_op = add_token
simple_token sub_op = sub_token
simple_token mul_op = mul_token
simple_token div_op = div_token
simple_token mod_op = mod_token
simple_token bitwise_and_op = bitwise_and_token
simple_token bitwise_or_op = bitwise_or_token
simple_token bitwise_xor_op = bitwise_xor_token
simple_token in_op = in_token
simple_token is_op = is_token
simple_token like_op = like_token
simple_token concat_op = concat_token

-- An expression: an operand, or an operator between its left and its right hand.
pub data Tree (A : Type 0) : Type 0 where
  operand : A → Tree A
  binary : Operation A → Tree A → Tree A → Tree A

pub data ParseError : Type 0 where
  expected_in_like : ParseError

module _ {A : Type 0} where
  -- The token that parseOperator returns with the operator.
  unfoldable pub read_token : Operation A → Token
  unfolding simple_token
  read_token (simple s) = simple_token s
  read_token (between_op a) = between_token
  read_token not_in_op = not_token
  read_token not_like_op = not_token
  read_token is_not_op = is_token

  -- The token of the operator that the expression gets. IS has that of IN.
  unfoldable pub node_token : Operation A → Token
  unfolding simple_token
  node_token (simple is_op) = in_token
  node_token (simple s) = simple_token s
  node_token (between_op a) = between_token
  node_token not_in_op = nin_token
  node_token not_like_op = like_token
  node_token is_not_op = isn_token

  -- Whether parseOperator goes on: the tests against the least precedence.
  unfoldable pub admits : ℕ → Operation A → Result ParseError Bool
  unfolding precedence read_token
  admits min not_in_op = if leb min (precedence in_token) then ok true else err expected_in_like
  admits min not_like_op = if leb min (precedence like_token) then ok true else err expected_in_like
  admits min op = ok (not (ltb (precedence (read_token op)) min))

  -- The descent along the right hands to the place of the new operator.
  unfoldable pub attach : Operation A → A → Tree A → Tree A
  unfolding precedence read_token node_token
  attach op a (operand b) = binary op (operand b) (operand a)
  attach op a (binary o l r) =
      let below = attach op a r in
      if leb (precedence (read_token op)) (precedence (node_token o))
      then binary op (binary o l r) (operand a)
      else binary o l below

  -- The loop, with what it leaves to be read.
  unfoldable pub build :
      ℕ → Tree A → List (Operation A × A) → Result ParseError (Tree A × List (Operation A × A))
  unfolding admits attach
  build min root [] = ok (root, [])
  build min root ((op, a) ∷ items) =
      let rest = build min (attach op a root) items in
      do go_on ← admits min op; if go_on then rest else ok (root, (op, a) ∷ items)

  -- parseExprWithMinPrecedence, of the first operand and what is behind it.
  unfoldable pub parse_expr_with_min_precedence :
      ℕ → A → List (Operation A × A) → Result ParseError (Tree A × List (Operation A × A))
  unfolding build
  parse_expr_with_min_precedence min a items = build min (operand a) items
