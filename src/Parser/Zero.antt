-- ===== src/Parser/Zero.antt =====
-- The operators NOT IN, NOT LIKE and IS NOT of internal/sql/parser/expr.go, whose tokens have no precedence
-- where they are compared.
use genji.Prelude.{◌≡◌, refl, sym, ap, ◌∙◌, List, [], ◌∷◌, ◌++◌, arith}
use genji.Prelude.Results.{ok}
use genji.Parser.{
  Operation, Tree, operand, binary, precedence, read_token, attach, parse_expr_with_min_precedence,
  not_in_op,
}
use genji.Parser.InOrder.{attach_top}
use genji.Parser.RoundTrip.{attach_all, parse_expr-attach_all}

module _ {A : Type 0} where
  zero_on_top :
      (op : Operation A) (a : A) (t : Tree A)
      → precedence (read_token op) ≡ 0
      → attach op a t ≡ binary op t (operand a)
  unfolding attach
  zero_on_top op a (operand b) h = refl
  zero_on_top op a (binary o l r) h = attach_top op o a l r (ground (arith, h))

  attach_all-last :
      (t : Tree A) (items : List (Operation A × A)) (op : Operation A) (a : A)
      → attach_all t (items ++ (op, a) ∷ []) ≡ attach op a (attach_all t items)
  unfolding attach_all
  attach_all-last t [] op a = refl
  attach_all-last t ((o, b) ∷ items) op a = attach_all-last (attach o b t) items op a

  -- NOT IN takes all that stands before it for its left hand.
  pub parse_expr-not_in :
      (a b : A) (items : List (Operation A × A)) (t : Tree A)
      → parse_expr_with_min_precedence 0 a items ≡ ok (t, [])
      → parse_expr_with_min_precedence 0 a (items ++ (not_in_op, b) ∷ [])
        ≡ ok (binary not_in_op t (operand b), [])
  unfolding precedence read_token
  parse_expr-not_in a b items t h =
      let same : attach_all (operand a) items ≡ t =
        (let z = sym (parse_expr-attach_all a items) ∙ h in cc z) in
      parse_expr-attach_all a (items ++ (not_in_op, b) ∷ [])
      ∙ ap (λ x. ok (x, []))
          (attach_all-last (operand a) items not_in_op b
            ∙ zero_on_top not_in_op b (attach_all (operand a) items) refl
            ∙ ap (λ x. binary not_in_op x (operand b)) same)
