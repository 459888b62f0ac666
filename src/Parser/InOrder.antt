-- ===== src/Parser/InOrder.antt =====
-- The tree that internal/sql/parser/expr.go builds has what was read, in that order.
use genji.Prelude.{
  ℕ, ◌≡◌, refl, sym, ap, ap₂, ◌∙◌, inl, inr, true, false, List, [], ◌∷◌, ◌++◌, leb, Bool-cases,
  then_of, else_of,
}
use genji.Prelude.Results.{ok, bind-ok, ok-injective}
use genji.Parser.{
  Operation, Tree, operand, binary, precedence, read_token, node_token, admits, attach, build,
  parse_expr_with_min_precedence,
}

module _ {A : Type 0} where
  -- The leftmost operand, and the operators behind it with their right operands.
  unfoldable pub first : Tree A → A
  first (operand a) = a
  first (binary o l r) = first l

  unfoldable pub items_of : Tree A → List (Operation A × A)
  unfolding first
  items_of (operand a) = []
  items_of (binary o l r) = items_of l ++ (o, first r) ∷ items_of r

  append_nil : (xs : List (Operation A × A)) → xs ++ [] ≡ xs
  append_nil [] = refl
  append_nil (x ∷ xs) = ap (λ y. x ∷ y) (append_nil xs)

  pub append_assoc : (xs ys zs : List (Operation A × A)) → (xs ++ ys) ++ zs ≡ xs ++ (ys ++ zs)
  append_assoc [] ys zs = refl
  append_assoc (x ∷ xs) ys zs = ap (λ y. x ∷ y) (append_assoc xs ys zs)

  pub attach_top :
      (op o : Operation A) (a : A) (l r : Tree A)
      → leb (precedence (read_token op)) (precedence (node_token o)) ≡ true
      → attach op a (binary o l r) ≡ binary op (binary o l r) (operand a)
  unfolding attach
  attach_top op o a l r h = rw h refl

  pub attach_below :
      (op o : Operation A) (a : A) (l r : Tree A)
      → leb (precedence (read_token op)) (precedence (node_token o)) ≡ false
      → attach op a (binary o l r) ≡ binary o l (attach op a r)
  unfolding attach
  attach_below op o a l r h = rw (h, attach) refl

  first-attach : (op : Operation A) (a : A) (t : Tree A) → first (attach op a t) ≡ first t
  unfolding first attach
  first-attach op a (operand b) = refl
  first-attach op a (binary o l r) =
      elim (Bool-cases (leb (precedence (read_token op)) (precedence (node_token o)))) [
        | inl p ↦ ap first (attach_top op o a l r p)
        | inr p ↦ ap first (attach_below op o a l r p)
      ]

  items_of-attach :
      (op : Operation A) (a : A) (t : Tree A)
      → items_of (attach op a t) ≡ items_of t ++ (op, a) ∷ []
  unfolding items_of attach first
  items_of-attach op a (operand b) = refl
  items_of-attach op a (binary o l r) =
      elim (Bool-cases (leb (precedence (read_token op)) (precedence (node_token o)))) [
        | inl p ↦ ap items_of (attach_top op o a l r p)
        | inr p ↦
            ap items_of (attach_below op o a l r p)
            ∙ ap₂ (λ x y. items_of l ++ (o, x) ∷ y) (first-attach op a r) (items_of-attach op a r)
            ∙ sym (append_assoc (items_of l) ((o, first r) ∷ items_of r) ((op, a) ∷ []))
      ]

  build-items_of :
      (min : ℕ) (root t : Tree A) (items rest : List (Operation A × A))
      → build min root items ≡ ok (t, rest)
      → (first t ≡ first root) × (items_of t ++ rest ≡ items_of root ++ items)
  unfolding build
  build-items_of min root t [] rest h =
      let z = ok-injective h in
      (
        ap first (sym (ap (λ x. x.0) z)),
        ap₂ (λ x y. items_of x ++ y) (sym (ap (λ x. x.0) z)) (sym (ap (λ x. x.1) z)),
      )
  build-items_of min root t ((op, a) ∷ items) rest h =
      let g = bind-ok (admits min op) _ h in
      elim (Bool-cases g.0) [
        | inl p ↦
            (let s = build-items_of min (attach op a root) t items rest (then_of g.0 _ _ g.1.1 p) in
              (
                s.0 ∙ first-attach op a root,
                s.1
                    ∙ ap (λ x. x ++ items) (items_of-attach op a root)
                    ∙ append_assoc (items_of root) ((op, a) ∷ []) items,
              ))
        | inr p ↦
            (let z = ok-injective (else_of g.0 _ _ g.1.1 p) in
              (
                ap first (sym (ap (λ x. x.0) z)),
                ap₂ (λ x y. items_of x ++ y) (sym (ap (λ x. x.0) z)) (sym (ap (λ x. x.1) z)),
              ))
      ]

  -- The expression that is read has the operands and operators of the input in their order, up to where
  -- the rest begins.
  pub parse_expr-items_of :
      (min : ℕ) (a : A) (t : Tree A) (items rest : List (Operation A × A))
      → parse_expr_with_min_precedence min a items ≡ ok (t, rest)
      → (first t ≡ a) × (items_of t ++ rest ≡ items)
  unfolding parse_expr_with_min_precedence first items_of
  parse_expr-items_of min a t items rest h = build-items_of min (operand a) t items rest h
