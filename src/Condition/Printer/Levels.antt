-- ===== src/Condition/Printer/Levels.antt =====
-- How the parsers of the three levels share the reading of an expression.
use stonefold.Prelude.{
  ℕ, zero, suc, ◌+◌, ◌-◌, ◌*◌, ◌≤◌, ◌≡◌, refl, ap, ◌∙◌, String, false, List, ◌∷◌, length, arith,
}
use stonefold.Condition.{
  Literal, Expr, both, either, negate, compare_to, in_expr, exists, kw_and, kw_or, Token, lparen,
  rparen, kw, ok,
}
use stonefold.Condition.Tokens.{PyChars}
use stonefold.Condition.Parser.{
  is_kw, at_lparen, at_rparen, at_dot, expect, or_expr, or_loop, and_expr, and_loop, unary,
}
use stonefold.Condition.Printer.{
  print_operand, print_negation, op_token, Level, any_expr, and_part, unary_part, print_expr,
}
use stonefold.Condition.Printer.Reading.{Calm, length-print_operand, length-print_parts}
use stonefold.Condition.Printer.Comparing.{length-print_negation}

-- how many times an expression goes on after its first part, by `or` and by `and`
unfoldable pub ors : Expr → ℕ
ors (either l r) = suc (ors l)
ors _ = 0

unfoldable pub ands : Expr → ℕ
ands (both l r) = suc (ands l)
ands _ = 0

abbrev pub Room : Expr → List Token → List Token → Type 0
Room e rest printed =
    (ors e + length rest + 1 ≤ length printed) × (ands e + length rest + 1 ≤ length printed)

module _ (spell : Literal → String) where
  length-print :
      (lv : Level) (e : Expr) (rest : List Token) → Room e rest (print_expr spell lv e rest)
  unfolding print_expr ors ands
  length-print any_expr (either l r) rest = omega (
    arith,
    length-print any_expr l (kw kw_or ∷ print_expr spell and_part r rest),
    length-print and_part r rest,
  )
  length-print and_part (either l r) rest = omega (
    arith,
    length-print any_expr l (kw kw_or ∷ print_expr spell and_part r (rparen ∷ rest)),
    length-print and_part r (rparen ∷ rest),
  )
  length-print unary_part (either l r) rest = omega (
    arith,
    length-print any_expr l (kw kw_or ∷ print_expr spell and_part r (rparen ∷ rest)),
    length-print and_part r (rparen ∷ rest),
  )
  length-print any_expr (both l r) rest = omega (
    arith,
    length-print and_part l (kw kw_and ∷ print_expr spell unary_part r rest),
    length-print unary_part r rest,
  )
  length-print and_part (both l r) rest = omega (
    arith,
    length-print and_part l (kw kw_and ∷ print_expr spell unary_part r rest),
    length-print unary_part r rest,
  )
  length-print unary_part (both l r) rest = omega (
    arith,
    length-print and_part l (kw kw_and ∷ print_expr spell unary_part r (rparen ∷ rest)),
    length-print unary_part r (rparen ∷ rest),
  )
  length-print lv (negate e) rest = omega (arith, length-print unary_part e rest)
  length-print lv (compare_to a o b) rest = omega (
    arith,
    length-print_operand spell a (op_token o ∷ print_operand spell b rest),
    length-print_operand spell b rest,
  )
  length-print lv (in_expr a b negated) rest = omega (
    arith,
    length-print_operand spell a (print_negation negated (print_operand spell b rest)),
    length-print_negation spell negated (print_operand spell b rest),
    length-print_operand spell b rest,
  )
  length-print lv (exists p ps) rest = omega (arith, length-print_parts ps rest)

  module _ (py : PyChars) where
    -- Each parser reads the expression off its own level's text, and goes on behind it.
    abbrev pub OrReads : Expr → Type 0
    OrReads e =
        (f : ℕ) (rest : List Token)
        → 8 * length (print_expr spell any_expr e rest) + 4 ≤ suc (ors e + f)
        → Calm rest
        → is_kw kw_and rest ≡ false
        → or_expr py (suc (ors e + f)) (print_expr spell any_expr e rest) ≡ or_loop py f e rest

    abbrev pub AndReads : Expr → Type 0
    AndReads e =
        (f : ℕ) (rest : List Token)
        → 8 * length (print_expr spell and_part e rest) + 3 ≤ suc (ands e + f)
        → Calm rest
        → and_expr py (suc (ands e + f)) (print_expr spell and_part e rest) ≡ and_loop py f e rest

    abbrev pub UnaryReads : Expr → Type 0
    UnaryReads e =
        (f : ℕ) (rest : List Token)
        → 8 * length (print_expr spell unary_part e rest) + 2 ≤ f
        → Calm rest
        → unary py f (print_expr spell unary_part e rest) ≡ ok (e, rest)

    pub or_whole :
        (e : Expr)
        → OrReads e
        → (f : ℕ) (rest : List Token) → 8 * length (print_expr spell any_expr e rest) + 4 ≤ f
        → Calm rest
        → is_kw kw_and rest ≡ false
        → is_kw kw_or rest ≡ false
        → or_expr py f (print_expr spell any_expr e rest) ≡ ok (e, rest)
    unfolding or_loop
    or_whole e reads f rest h calm no_and no_or =
        let room = length-print any_expr e rest in
        let f' = f - ors e - 2 in
        let split : f ≡ suc (ors e + suc f') = omega arith in
        rw split (reads (suc f') rest (omega arith) calm no_and ∙ rw (or_loop, no_or) refl)

    and_whole :
        (e : Expr)
        → AndReads e
        → (f : ℕ) (rest : List Token) → 8 * length (print_expr spell and_part e rest) + 3 ≤ f
        → Calm rest
        → is_kw kw_and rest ≡ false
        → and_expr py f (print_expr spell and_part e rest) ≡ ok (e, rest)
    unfolding and_loop
    and_whole e reads f rest h calm no_and =
        let room = length-print and_part e rest in
        let f' = f - ands e - 2 in
        let split : f ≡ suc (ands e + suc f') = omega arith in
        rw split (reads (suc f') rest (omega arith) calm ∙ rw (and_loop, no_and) refl)

    pub and_of_unary :
        (e : Expr)
        → ands e ≡ 0
        → ((rest : List Token)
            → print_expr spell and_part e rest ≡ print_expr spell unary_part e rest)
        → UnaryReads e
        → AndReads e
    unfolding and_expr
    and_of_unary e none_ same reads f rest h calm =
        let bound : 8 * length (print_expr spell unary_part e rest) + 2 ≤ f =
          omega (arith, ap length (same rest)) in
        let z : ands e + f ≡ f = omega arith in
        rw (z, same rest) (rw (reads f rest bound calm) refl)

    pub or_of_and :
        (e : Expr)
        → ors e ≡ 0
        → ((rest : List Token)
            → print_expr spell any_expr e rest ≡ print_expr spell and_part e rest)
        → AndReads e
        → OrReads e
    unfolding or_expr
    or_of_and e none_ same reads f rest h calm no_and =
        let bound : 8 * length (print_expr spell and_part e rest) + 3 ≤ f =
          omega (arith, ap length (same rest)) in
        let z : ors e + f ≡ f = omega arith in
        rw (z, same rest) (rw (and_whole e reads f rest bound calm no_and) refl)

    pub unary_of_or :
        (e : Expr)
        → ((rest : List Token)
            → print_expr spell unary_part e rest
              ≡ lparen ∷ print_expr spell any_expr e (rparen ∷ rest))
        → OrReads e
        → UnaryReads e
    unfolding unary is_kw at_lparen at_rparen at_dot expect
    unary_of_or e same reads zero rest h calm = absurd (omega arith)
    unary_of_or e same reads (suc f) rest h calm =
        let bound : 8 * length (print_expr spell any_expr e (rparen ∷ rest)) + 4 ≤ f =
          omega (arith, ap length (same rest)) in
        rw (same rest) (rw (or_whole e reads f (rparen ∷ rest) bound (refl, refl) refl refl) refl)

    pub either_reads : (l r : Expr) → OrReads l → AndReads r → OrReads (either l r)
    unfolding ors or_loop is_kw at_dot at_lparen print_expr
    either_reads l r reads reads' f rest h calm no_and =
        let behind = print_expr spell and_part r rest in
        let room = length-print any_expr l (kw kw_or ∷ behind) in
        let split : suc (ors l) + f ≡ ors l + suc f = omega arith in
        (ap (λ k. or_expr py (suc k) (print_expr spell any_expr l (kw kw_or ∷ behind))) split
          ∙ reads (suc f) (kw kw_or ∷ behind) (omega arith) (refl, refl) refl
          ∙ rw (and_whole r reads' f rest (omega arith) calm no_and) refl)

    pub both_reads : (l r : Expr) → AndReads l → UnaryReads r → AndReads (both l r)
    unfolding ands and_loop is_kw at_dot at_lparen print_expr
    both_reads l r reads reads' f rest h calm =
        let behind = print_expr spell unary_part r rest in
        let room = length-print and_part l (kw kw_and ∷ behind) in
        let split : suc (ands l) + f ≡ ands l + suc f = omega arith in
        (ap (λ k. and_expr py (suc k) (print_expr spell and_part l (kw kw_and ∷ behind))) split
          ∙ reads (suc f) (kw kw_and ∷ behind) (omega arith) (refl, refl)
          ∙ rw (reads' f rest (omega arith) calm) refl)
