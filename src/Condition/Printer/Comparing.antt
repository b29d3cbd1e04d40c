-- ===== src/Condition/Printer/Comparing.antt =====
-- A comparison that was written is read back.
use stonefold.Prelude.{
  ℕ, ◌+◌, ◌*◌, ◌≤◌, ◌≡◌, refl, String, Bool, true, false, List, ◌∷◌, length, arith,
}
use stonefold.Condition.{
  Literal, text, int, float, bool, list, Operand, path, literal, func, compare_to, in_expr, exists,
  CompareOp, Keyword, kw_exists, Token, kw, ok, ◌>>=◌,
}
use stonefold.Condition.Tokens.{PyChars}
use stonefold.Condition.Parser.{
  is_kw, at_lparen, at_lbrack, at_dot, op_at, operand, collection, compare_rest, comparison, expect,
  expect_ident,
}
use stonefold.Condition.Printer.{
  print_parts, print_literal, print_operand, print_negation, op_token, LiteralSpelled,
  OperandSpelled,
}
use stonefold.Condition.Printer.Reading.{
  Calm, path_rest-print, items-print, operand-print, length-print_operand,
}

module _ (spell : Literal → String) where
  pub operand-no_kw :
      (k : Keyword) (o : Operand) (rest : List Token) → is_kw k (print_operand spell o rest) ≡ false
  unfolding print_operand print_literal is_kw
  operand-no_kw k (path p ps) rest = refl
  operand-no_kw k (literal (text s)) rest = refl
  operand-no_kw k (literal (int n)) rest = refl
  operand-no_kw k (literal (float x)) rest = refl
  operand-no_kw k (literal (bool b)) rest = refl
  operand-no_kw k (literal (list ls)) rest = refl
  operand-no_kw k (func name os) rest = refl

  pub operand-no_lparen :
      (o : Operand) (rest : List Token) → at_lparen (print_operand spell o rest) ≡ false
  unfolding print_operand print_literal at_lparen
  operand-no_lparen (path p ps) rest = refl
  operand-no_lparen (literal (text s)) rest = refl
  operand-no_lparen (literal (int n)) rest = refl
  operand-no_lparen (literal (float x)) rest = refl
  operand-no_lparen (literal (bool b)) rest = refl
  operand-no_lparen (literal (list ls)) rest = refl
  operand-no_lparen (func name os) rest = refl

  op_token-Calm : (o : CompareOp) (rest : List Token) → Calm (op_token o ∷ rest)
  unfolding op_token at_dot at_lparen
  op_token-Calm CompareOp.eq rest = (refl, refl)
  op_token-Calm CompareOp.matches rest = (refl, refl)
  op_token-Calm _ rest = (refl, refl)

  print_negation-Calm : (b : Bool) (rest : List Token) → Calm (print_negation b rest)
  unfolding print_negation at_dot at_lparen
  print_negation-Calm true rest = (refl, refl)
  print_negation-Calm false rest = (refl, refl)

  pub length-print_negation :
      (b : Bool) (rest : List Token) → length rest + 1 ≤ length (print_negation b rest)
  unfolding print_negation
  length-print_negation true rest = omega arith
  length-print_negation false rest = omega arith

  module _ (py : PyChars) where
    compare_rest-op_token :
        (f : ℕ) (a : Operand) (o : CompareOp) (ts : List Token)
        → compare_rest py f a (op_token o ∷ ts)
          ≡ (operand py f ts >>= (λ (r, us). ok (compare_to a o r, us)))
    unfolding compare_rest op_token is_kw op_at
    compare_rest-op_token f a CompareOp.eq ts = refl
    compare_rest-op_token f a CompareOp.matches ts = refl
    compare_rest-op_token f a _ ts = refl

    compare_rest-negation :
        (f : ℕ) (a : Operand) (b : Bool) (ts : List Token)
        → compare_rest py f a (print_negation b ts)
          ≡ (collection py f ts >>= (λ (r, us). ok (in_expr a r b, us)))
    unfolding compare_rest print_negation is_kw expect
    compare_rest-negation f a true ts = refl
    compare_rest-negation f a false ts = refl

    collection-print :
        (b : Operand) (f : ℕ) (rest : List Token)
        → 8 * length (print_operand spell b rest) + 1 ≤ f
        → Calm rest
        → OperandSpelled spell py b
        → collection py f (print_operand spell b rest) ≡ ok (b, rest)
    unfolding collection print_operand print_literal at_lbrack OperandSpelled LiteralSpelled
    collection-print (literal (list ls)) f rest h c s =
        rw (items-print spell py ls f rest (omega arith) s) refl
    collection-print (path p ps) f rest h c s = operand-print spell py (path p ps) f rest h c s
    collection-print (literal (text t)) f rest h c s =
        operand-print spell py (literal (text t)) f rest h c s
    collection-print (literal (int n)) f rest h c s =
        operand-print spell py (literal (int n)) f rest h c s
    collection-print (literal (float x)) f rest h c s =
        operand-print spell py (literal (float x)) f rest h c s
    collection-print (literal (bool b)) f rest h c s =
        operand-print spell py (literal (bool b)) f rest h c s
    collection-print (func name os) f rest h c s =
        operand-print spell py (func name os) f rest h c s

    pub comparison-compare :
        (a : Operand) (o : CompareOp) (b : Operand) (f : ℕ) (rest : List Token)
        → 8 * length (print_operand spell a (op_token o ∷ print_operand spell b rest)) + 1 ≤ f
        → Calm rest
        → OperandSpelled spell py a × OperandSpelled spell py b
        → comparison py f (print_operand spell a (op_token o ∷ print_operand spell b rest))
          ≡ ok (compare_to a o b, rest)
    unfolding comparison
    comparison-compare a o b f rest h c (s, s') =
        let behind = print_operand spell b rest in
        let lt = length-print_operand spell a (op_token o ∷ behind) in
        rw (comparison, operand-no_kw kw_exists a (op_token o ∷ behind))
          (rw (operand-print spell py a f (op_token o ∷ behind) h (op_token-Calm o behind) s) (
            rw (compare_rest-op_token f a o behind)
              (rw (operand-print spell py b f rest (omega arith) c s') refl)))

    pub comparison-in :
        (a b : Operand) (negated : Bool) (f : ℕ) (rest : List Token)
        → 8 * length (print_operand spell a (print_negation negated (print_operand spell b rest)))
            + 1
          ≤ f
        → Calm rest
        → OperandSpelled spell py a × OperandSpelled spell py b
        → comparison py f
            (print_operand spell a (print_negation negated (print_operand spell b rest)))
          ≡ ok (in_expr a b negated, rest)
    unfolding comparison
    comparison-in a b negated f rest h c (s, s') =
        let behind = print_operand spell b rest in
        let word = print_negation negated behind in
        let lt = length-print_operand spell a word in
        let lt' = length-print_negation negated behind in
        rw (comparison, operand-no_kw kw_exists a word)
          (rw (operand-print spell py a f word h (print_negation-Calm negated behind) s) (
            rw (compare_rest-negation f a negated behind)
              (rw (collection-print b f rest (omega arith) c s') refl)))

    pub comparison-exists :
        (p : String) (ps : List String) (f : ℕ) (rest : List Token)
        → 8 * length (print_parts ps rest) + 1 ≤ f
        → at_dot rest ≡ false
        → comparison py f (kw kw_exists ∷ Token.ident p ∷ print_parts ps rest)
          ≡ ok (exists p ps, rest)
    unfolding comparison is_kw expect_ident
    comparison-exists p ps f rest h no_dot =
        rw (path_rest-print ps f rest (omega arith) no_dot) refl
