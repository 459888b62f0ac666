-- ===== src/Parser/Ordered.antt =====
-- The trees of internal/sql/parser/expr.go follow the precedences, from left to right.
use genji.Prelude.{
  ℕ, suc, ◌≤◌, ◌≡◌, sym, ap, subst, inl, inr, List, [], ◌∷◌, leb, Bool-cases, then_of, else_of, All,
  arith,
}
use genji.Prelude.Results.{ok, bind-ok, ok-injective}
use genji.Parser.{
  Operation, Tree, operand, binary, precedence, read_token, node_token, admits, attach, build,
  parse_expr_with_min_precedence,
}
use genji.Parser.InOrder.{attach_top, attach_below}

module _ {A : Type 0} where
  -- An operator that keeps the precedence with which it was read.
  abbrev pub IsRegular : Operation A → Type 0
  IsRegular op = precedence (node_token op) ≡ precedence (read_token op)

  -- The operator at the root has at least this precedence.
  abbrev pub AtLeast : ℕ → Tree A → Type 0
  AtLeast p (operand a) = Unit
  AtLeast p (binary o l r) = p ≤ precedence (node_token o)

  -- On the left of an operator none binds less, on its right all bind more.
  abbrev pub IsOrdered : Tree A → Type 0
  IsOrdered (operand a) = Unit
  IsOrdered (binary o l r) =
      (AtLeast (precedence (node_token o)) l × AtLeast (suc (precedence (node_token o))) r)
      × (IsOrdered l × IsOrdered r)

  abbrev pub AllRegular : Tree A → Type 0
  AllRegular (operand a) = Unit
  AllRegular (binary o l r) = IsRegular o × (AllRegular l × AllRegular r)

  attach-AtLeast :
      (p : ℕ) (op : Operation A) (a : A) (t : Tree A)
      → AtLeast p t
      → p ≤ precedence (node_token op)
      → AtLeast p (attach op a t)
  unfolding attach
  attach-AtLeast p op a (operand b) h k = k
  attach-AtLeast p op a (binary o l r) h k =
      elim (Bool-cases (leb (precedence (read_token op)) (precedence (node_token o)))) [
        | inl q ↦ subst (AtLeast p) (sym (attach_top op o a l r q)) k
        | inr q ↦ subst (AtLeast p) (sym (attach_below op o a l r q)) h
      ]

  attach-IsOrdered :
      (op : Operation A) (a : A) (t : Tree A)
      → IsRegular op
      → IsOrdered t
      → IsOrdered (attach op a t)
  unfolding attach
  attach-IsOrdered op a (operand b) g h = ((tt, tt), (tt, tt))
  attach-IsOrdered op a (binary o l r) g h =
      elim (Bool-cases (leb (precedence (read_token op)) (precedence (node_token o)))) [
        | inl q ↦
            subst IsOrdered (sym (attach_top op o a l r q)) ((ground (arith, q, g), tt), (h, tt))
        | inr q ↦ subst IsOrdered (sym (attach_below op o a l r q)) (
          (
            h.0.0,
            attach-AtLeast (suc (precedence (node_token o))) op a r h.0.1 (ground (arith, q, g)),
          ),
          (h.1.0, attach-IsOrdered op a r g h.1.1),
        )
      ]

  build-IsOrdered :
      (min : ℕ) (root t : Tree A) (items rest : List (Operation A × A))
      → All (λ x. IsRegular x.0) items
      → IsOrdered root
      → build min root items ≡ ok (t, rest)
      → IsOrdered t
  unfolding build
  build-IsOrdered min root t [] rest g i h = subst IsOrdered (ap (λ x. x.0) (ok-injective h)) i
  build-IsOrdered min root t ((op, a) ∷ items) rest (g, gs) i h =
      let b = bind-ok (admits min op) _ h in
      elim (Bool-cases b.0) [
        | inl p ↦
            build-IsOrdered min (attach op a root) t items rest gs (attach-IsOrdered op a root g i)
              (then_of b.0 _ _ b.1.1 p)
        | inr p ↦ subst IsOrdered (ap (λ x. x.0) (ok-injective (else_of b.0 _ _ b.1.1 p))) i
      ]

  -- An expression that is read of operators that keep their precedence follows the precedences, from left
  -- to right: on the left of an operator none binds less, and on its right all bind more.
  pub parse_expr-IsOrdered :
      (min : ℕ) (a : A) (t : Tree A) (items rest : List (Operation A × A))
      → All (λ x. IsRegular x.0) items
      → parse_expr_with_min_precedence min a items ≡ ok (t, rest)
      → IsOrdered t
  unfolding parse_expr_with_min_precedence
  parse_expr-IsOrdered min a t items rest g h = build-IsOrdered min (operand a) t items rest g tt h
