-- ===== src/Parser/RoundTrip.antt =====
-- Reading back what a tree is written as (internal/sql/parser/expr.go).
use genji.Prelude.{ℕ, suc, ◌≤◌, ◌≡◌, refl, ap, ◌∙◌, true, List, [], ◌∷◌, ◌++◌, All, All-map, arith}
use genji.Prelude.Results.{ok}
use genji.Parser.{
  Operation, Tree, operand, binary, precedence, read_token, node_token, admits, attach, build,
  parse_expr_with_min_precedence, simple, between_op, not_in_op, not_like_op, is_not_op,
}
use genji.Parser.InOrder.{first, items_of, attach_top, attach_below}
use genji.Parser.Ordered.{IsRegular, AtLeast, IsOrdered, AllRegular}

module _ {A : Type 0} where
  -- The loop with nothing that stops it.
  unfoldable pub attach_all : Tree A → List (Operation A × A) → Tree A
  attach_all t [] = t
  attach_all t ((op, a) ∷ items) = attach_all (attach op a t) items

  attach_all-append :
      (t : Tree A) (xs ys : List (Operation A × A))
      → attach_all t (xs ++ ys) ≡ attach_all (attach_all t xs) ys
  unfolding attach_all
  attach_all-append t [] ys = refl
  attach_all-append t ((op, a) ∷ xs) ys = attach_all-append (attach op a t) xs ys

  -- Operators that bind more go to the right hand.
  pub attach_all-below :
      (o : Operation A) (l r : Tree A) (items : List (Operation A × A))
      → All (λ x. suc (precedence (node_token o)) ≤ precedence (read_token x.0)) items
      → attach_all (binary o l r) items ≡ binary o l (attach_all r items)
  unfolding attach_all
  attach_all-below o l r [] h = refl
  attach_all-below o l r ((op, a) ∷ items) (h, hs) =
      ap (λ t. attach_all t items) (attach_below op o a l r (ground (arith, h)))
      ∙ attach_all-below o l (attach op a r) items hs

  All-append :
      (P : Operation A × A → Type 0) (xs ys : List (Operation A × A))
      → All P xs
      → All P ys
      → All P (xs ++ ys)
  All-append P [] ys h k = k
  All-append P (x ∷ xs) ys (p, h) k = (p, All-append P xs ys h k)

  items_of-AtLeast :
      (p : ℕ) (t : Tree A)
      → AtLeast p t
      → IsOrdered t
      → AllRegular t
      → All (λ x. p ≤ precedence (read_token x.0)) (items_of t)
  unfolding items_of
  items_of-AtLeast p (operand a) h i g = tt
  items_of-AtLeast p (binary o l r) h ((l_least, r_least), (i, j)) (g, (g', g'')) =
      let p' = precedence (node_token o) in
      All-append (λ x. p ≤ precedence (read_token x.0)) (items_of l) ((o, first r) ∷ items_of r)
        (All-map (items_of l) (λ x (q : p' ≤ precedence (read_token x.0)). omega (arith, h, q))
          (items_of-AtLeast p' l l_least i g'))
        (
          omega (arith, h, g),
          All-map (items_of r) (λ x (q : suc p' ≤ precedence (read_token x.0)). omega (arith, h, q))
              (items_of-AtLeast (suc p') r r_least j g''),
        )

  attach_on_top :
      (o : Operation A) (a : A) (l : Tree A)
      → IsRegular o
      → AtLeast (precedence (node_token o)) l
      → attach o a l ≡ binary o l (operand a)
  unfolding attach
  attach_on_top o a (operand b) g h = refl
  attach_on_top o a (binary o' l r) g h = attach_top o o' a l r (ground (arith, g, h))

  attach_all-items_of :
      (t : Tree A) → IsOrdered t → AllRegular t → attach_all (operand (first t)) (items_of t) ≡ t
  unfolding attach_all first items_of
  attach_all-items_of (operand a) i g = refl
  attach_all-items_of (binary o l r) ((l_least, r_least), (i, j)) (g, (g', g'')) =
      attach_all-append (operand (first l)) (items_of l) ((o, first r) ∷ items_of r)
      ∙ ap (λ t. attach_all (attach o (first r) t) (items_of r)) (attach_all-items_of l i g')
      ∙ ap (λ t. attach_all t (items_of r)) (attach_on_top o (first r) l g l_least)
      ∙ attach_all-below o l (operand (first r)) (items_of r)
          (items_of-AtLeast (suc (precedence (node_token o))) r r_least j g'')
      ∙ ap (binary o l) (attach_all-items_of r j g'')

  admits_all : (op : Operation A) → admits 0 op ≡ ok true
  unfolding admits
  admits_all (simple s) = ground arith
  admits_all (between_op a) = ground arith
  admits_all not_in_op = ground arith
  admits_all not_like_op = ground arith
  admits_all is_not_op = ground arith

  build-attach_all :
      (t : Tree A) (items : List (Operation A × A)) → build 0 t items ≡ ok (attach_all t items, [])
  unfolding build attach_all
  build-attach_all t [] = refl
  build-attach_all t ((op, a) ∷ items) = rw (admits_all op) (build-attach_all (attach op a t) items)

  pub parse_expr-attach_all :
      (a : A) (items : List (Operation A × A))
      → parse_expr_with_min_precedence 0 a items ≡ ok (attach_all (operand a) items, [])
  unfolding parse_expr_with_min_precedence
  parse_expr-attach_all a items = build-attach_all (operand a) items

  -- A tree that follows the precedences, of operators that keep theirs, is what its own operands and
  -- operators are read as.
  pub parse_expr-first :
      (t : Tree A)
      → IsOrdered t
      → AllRegular t
      → parse_expr_with_min_precedence 0 (first t) (items_of t) ≡ ok (t, [])
  parse_expr-first t i g =
      parse_expr-attach_all (first t) (items_of t)
      ∙ ap (λ x. ok (x, [])) (attach_all-items_of t i g)
