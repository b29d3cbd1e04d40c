-- ===== src/Condition/Printer/Reading.antt =====
-- An operand that was written is read back.
use stonefold.Prelude.{
  ℕ, zero, suc, ◌+◌, ◌*◌, ◌≤◌, ◌≡◌, refl, String, false, List, [], ◌∷◌, length, arith,
}
use stonefold.Condition.{
  Literal, text, int, float, bool, list, Literals, nil, cons, Operand, path, literal, func,
  Operands, no_args, arg, Token, rparen, rbrack, comma, ok,
}
use stonefold.Condition.Tokens.{PyChars}
use stonefold.Condition.Parser.{
  at_lparen, at_rparen, at_rbrack, at_comma, at_dot, expect, expect_ident, item_of, path_rest,
  operand, args, more_args, items, more_items,
}
use stonefold.Condition.Printer.{
  print_parts, print_literal, print_items, print_more, print_operand, print_args, print_more_args,
  LiteralSpelled, ItemsSpelled, OperandSpelled, ArgsSpelled,
}

-- What follows does not go on with a path or with a call.
abbrev pub Calm : List Token → Type 0
Calm rest = (at_dot rest ≡ false) × (at_lparen rest ≡ false)

pub length-print_parts :
    (ps : List String) (rest : List Token) → length rest ≤ length (print_parts ps rest)
unfolding print_parts
length-print_parts [] rest = omega arith
length-print_parts (p ∷ ps) rest = omega (arith, length-print_parts ps rest)

-- fuel above a number is a successor
pub spend : {n : ℕ} (P : ℕ → Type 0) → ((f : ℕ) → n ≤ f → P (suc f)) → (f : ℕ) → n + 1 ≤ f → P f
spend P k zero h = absurd (omega arith)
spend P k (suc f) h = k f (omega arith)

pub path_rest-print :
    (ps : List String) (f : ℕ) (rest : List Token)
    → length (print_parts ps rest) + 1 ≤ f
    → at_dot rest ≡ false
    → path_rest f (print_parts ps rest) ≡ ok (ps, rest)
unfolding path_rest print_parts at_dot expect_ident
path_rest-print ps zero rest h calm = absurd (omega arith)
path_rest-print [] (suc f) rest h calm = rw (path_rest, calm) refl
path_rest-print (p ∷ ps) (suc f) rest h calm =
    rw (path_rest-print ps f rest (omega arith) calm) refl

no_call :
    (ps : List String) (rest : List Token)
    → at_lparen rest ≡ false
    → at_lparen (print_parts ps rest) ≡ false
unfolding print_parts at_lparen
no_call [] rest h = h
no_call (p ∷ ps) rest h = refl

module _ (spell : Literal → String) where
  mutual
    unfolding print_literal print_items print_more

    pub length-print_literal :
        (l : Literal) (rest : List Token) → length rest + 1 ≤ length (print_literal spell l rest)
    length-print_literal (text s) rest = omega arith
    length-print_literal (int n) rest = omega arith
    length-print_literal (float x) rest = omega arith
    length-print_literal (bool b) rest = omega arith
    length-print_literal (list ls) rest = omega (arith, length-print_items ls rest)

    length-print_items :
        (ls : Literals) (rest : List Token) → length rest + 1 ≤ length (print_items spell ls rest)
    length-print_items nil rest = omega arith
    length-print_items (cons l ls) rest =
        omega (arith, length-print_literal l (print_more spell ls rest), length-print_more ls rest)

    length-print_more :
        (ls : Literals) (rest : List Token) → length rest + 1 ≤ length (print_more spell ls rest)
    length-print_more nil rest = omega arith
    length-print_more (cons l ls) rest =
        omega (arith, length-print_literal l (print_more spell ls rest), length-print_more ls rest)

  literal-no_rbrack :
      (l : Literal) (rest : List Token) → at_rbrack (print_literal spell l rest) ≡ false
  unfolding print_literal at_rbrack
  literal-no_rbrack (text s) rest = refl
  literal-no_rbrack (int n) rest = refl
  literal-no_rbrack (float x) rest = refl
  literal-no_rbrack (bool b) rest = refl
  literal-no_rbrack (list ls) rest = refl

  module _ (py : PyChars) where
    mutual
      unfolding operand items more_items print_literal print_items print_more LiteralSpelled
          ItemsSpelled at_comma at_rbrack expect item_of

      pub literal-print :
          (l : Literal) (f : ℕ) (rest : List Token)
          → 8 * length (print_literal spell l rest) + 1 ≤ f
          → LiteralSpelled spell py l
          → operand py f (print_literal spell l rest) ≡ ok (literal l, rest)
      literal-print l zero rest h s = absurd (omega arith)
      literal-print (text t) (suc f) rest h s = refl
      literal-print (int n) (suc f) rest h s = rw s refl
      literal-print (float x) (suc f) rest h s = rw s refl
      literal-print (bool b) (suc f) rest h s = refl
      literal-print (list ls) (suc f) rest h s = rw (items-print ls f rest (omega arith) s) refl

      pub items-print :
          (ls : Literals) (f : ℕ) (rest : List Token)
          → 8 * length (print_items spell ls rest) + 3 ≤ f
          → ItemsSpelled spell py ls
          → items py f (print_items spell ls rest) ≡ ok (ls, rest)
      items-print ls zero rest h s = absurd (omega arith)
      items-print nil (suc f) rest h s = refl
      items-print (cons l ls) (suc f) rest h (s, ss) =
          rw (items, literal-no_rbrack l (print_more spell ls rest))
            (more-print l ls f rest (omega arith) s ss)

      more-print :
          (l : Literal) (ls : Literals) (f : ℕ) (rest : List Token)
          → 8 * length (print_literal spell l (print_more spell ls rest)) + 2 ≤ f
          → LiteralSpelled spell py l
          → ItemsSpelled spell py ls
          → more_items py f (print_literal spell l (print_more spell ls rest))
            ≡ ok (cons l ls, rest)
      more-print l ls zero rest h s ss = absurd (omega arith)
      more-print l nil (suc f) rest h s ss =
          rw (literal-print l f (rbrack ∷ rest) (omega arith) s) refl
      more-print l (cons l' ls) (suc f) rest h s (s', ss) =
          let next = print_literal spell l' (print_more spell ls rest) in
          let lt = length-print_literal l (comma ∷ next) in
          rw (literal-print l f (comma ∷ next) (omega arith) s)
            (rw (more-print l' ls f rest (omega arith) s' ss) refl)

  mutual
    unfolding print_operand print_args print_more_args

    pub length-print_operand :
        (o : Operand) (rest : List Token) → length rest + 1 ≤ length (print_operand spell o rest)
    length-print_operand (path p ps) rest = omega (arith, length-print_parts ps rest)
    length-print_operand (literal l) rest = length-print_literal l rest
    length-print_operand (func name os) rest = omega (arith, length-print_args os rest)

    length-print_args :
        (os : Operands) (rest : List Token) → length rest + 1 ≤ length (print_args spell os rest)
    length-print_args no_args rest = omega arith
    length-print_args (arg o os) rest = omega (
      arith,
      length-print_operand o (print_more_args spell os rest),
      length-print_more_args os rest,
    )

    length-print_more_args :
        (os : Operands) (rest : List Token)
        → length rest + 1 ≤ length (print_more_args spell os rest)
    length-print_more_args no_args rest = omega arith
    length-print_more_args (arg o os) rest = omega (
      arith,
      length-print_operand o (print_more_args spell os rest),
      length-print_more_args os rest,
    )

  operand-no_rparen :
      (o : Operand) (rest : List Token) → at_rparen (print_operand spell o rest) ≡ false
  unfolding print_operand print_literal at_rparen
  operand-no_rparen (path p ps) rest = refl
  operand-no_rparen (literal (text s)) rest = refl
  operand-no_rparen (literal (int n)) rest = refl
  operand-no_rparen (literal (float x)) rest = refl
  operand-no_rparen (literal (bool b)) rest = refl
  operand-no_rparen (literal (list ls)) rest = refl
  operand-no_rparen (func name os) rest = refl

  module _ (py : PyChars) where
    mutual
      unfolding operand args more_args print_operand print_args print_more_args OperandSpelled
          ArgsSpelled at_comma at_rparen at_lparen at_dot expect

      pub operand-print :
          (o : Operand) (f : ℕ) (rest : List Token)
          → 8 * length (print_operand spell o rest) + 1 ≤ f
          → Calm rest
          → OperandSpelled spell py o
          → operand py f (print_operand spell o rest) ≡ ok (o, rest)
      operand-print o zero rest h c s = absurd (omega arith)
      operand-print (path p ps) (suc f) rest h (no_dot, no_lparen) s =
          rw (operand, no_call ps rest no_lparen)
            (rw (path_rest-print ps f rest (omega arith) no_dot) refl)
      operand-print (literal l) (suc f) rest h c s = literal-print py l (suc f) rest h s
      operand-print (func name os) (suc f) rest h c s =
          rw (args-print os f rest (omega arith) s) refl

      args-print :
          (os : Operands) (f : ℕ) (rest : List Token)
          → 8 * length (print_args spell os rest) + 3 ≤ f
          → ArgsSpelled spell py os
          → args py f (print_args spell os rest) ≡ ok (os, rest)
      args-print os zero rest h s = absurd (omega arith)
      args-print no_args (suc f) rest h s = refl
      args-print (arg o os) (suc f) rest h (s, ss) =
          rw (args, operand-no_rparen o (print_more_args spell os rest))
            (more_args-print o os f rest (omega arith) s ss)

      more_args-print :
          (o : Operand) (os : Operands) (f : ℕ) (rest : List Token)
          → 8 * length (print_operand spell o (print_more_args spell os rest)) + 2 ≤ f
          → OperandSpelled spell py o
          → ArgsSpelled spell py os
          → more_args py f (print_operand spell o (print_more_args spell os rest))
            ≡ ok (arg o os, rest)
      more_args-print o os zero rest h s ss = absurd (omega arith)
      more_args-print o no_args (suc f) rest h s ss =
          rw (operand-print o f (rparen ∷ rest) (omega arith) (refl, refl) s) refl
      more_args-print o (arg o' os) (suc f) rest h s (s', ss) =
          let next = print_operand spell o' (print_more_args spell os rest) in
          let lt = length-print_operand o (comma ∷ next) in
          rw (operand-print o f (comma ∷ next) (omega arith) (refl, refl) s)
            (rw (more_args-print o' os f rest (omega arith) s' ss) refl)
