-- ===== src/Condition/Printer.antt =====
-- How an expression of the condition language is written, in the grammar at the head of
-- stonefold_core/condition.py: tokens in front of the tokens that follow. Parentheses stand where
-- the grammar needs them.
pub mod Reading
pub mod Comparing
pub mod Levels
pub mod RoundTrip
use stonefold.Prelude.{ℕ, zero, suc, String, Bool, true, false, List, [], ◌∷◌, ◌≡◌}
use stonefold.Condition.{
  Literal, text, int, float, bool, list, Literals, nil, cons, Operand, path, literal, func,
  Operands, no_args, arg, Expr, both, either, negate, compare_to, in_expr, exists, CompareOp,
  kw_and, kw_or, kw_not, kw_in, kw_exists, kw_matches, Token, op, lparen, rparen, lbrack, rbrack,
  comma, dot, string, number, ident, truth, kw, ok,
}
use stonefold.Condition.Tokens.{PyChars}
use stonefold.Condition.Parser.{number_literal}

unfoldable pub print_parts : List String → List Token → List Token
print_parts [] rest = rest
print_parts (p ∷ ps) rest = dot ∷ ident p ∷ print_parts ps rest

unfoldable pub op_token : CompareOp → Token
op_token CompareOp.matches = kw kw_matches
op_token o = op o

unfoldable pub print_negation : Bool → List Token → List Token
print_negation true rest = kw kw_not ∷ kw kw_in ∷ rest
print_negation false rest = kw kw_in ∷ rest

-- where an expression stands: anywhere, as a part of an `or`, as a part of an `and`
pub data Level : Type 0 where
  any_expr and_part unary_part : Level

-- The texts of the numbers are given.
module _ (spell : Literal → String) where
  unfoldable mutual
    pub print_literal : Literal → List Token → List Token
    print_literal (text s) rest = string s ∷ rest
    print_literal (int n) rest = number (spell (int n)) ∷ rest
    print_literal (float x) rest = number (spell (float x)) ∷ rest
    print_literal (bool b) rest = truth b ∷ rest
    print_literal (list ls) rest = lbrack ∷ print_items ls rest

    pub print_items : Literals → List Token → List Token
    print_items nil rest = rbrack ∷ rest
    print_items (cons l ls) rest = print_literal l (print_more ls rest)

    pub print_more : Literals → List Token → List Token
    print_more nil rest = rbrack ∷ rest
    print_more (cons l ls) rest = comma ∷ print_literal l (print_more ls rest)

  unfoldable mutual
    pub print_operand : Operand → List Token → List Token
    print_operand (path p ps) rest = ident p ∷ print_parts ps rest
    print_operand (literal l) rest = print_literal l rest
    print_operand (func name os) rest = ident name ∷ lparen ∷ print_args os rest

    pub print_args : Operands → List Token → List Token
    print_args no_args rest = rparen ∷ rest
    print_args (arg o os) rest = print_operand o (print_more_args os rest)

    pub print_more_args : Operands → List Token → List Token
    print_more_args no_args rest = rparen ∷ rest
    print_more_args (arg o os) rest = comma ∷ print_operand o (print_more_args os rest)

  -- at a level that does not take it, an expression stands in parentheses
  unfoldable pub print_expr : Level → Expr → List Token → List Token
  print_expr any_expr (either l r) rest =
      print_expr any_expr l (kw kw_or ∷ print_expr and_part r rest)
  print_expr and_part (either l r) rest =
      lparen ∷ print_expr any_expr l (kw kw_or ∷ print_expr and_part r (rparen ∷ rest))
  print_expr unary_part (either l r) rest =
      lparen ∷ print_expr any_expr l (kw kw_or ∷ print_expr and_part r (rparen ∷ rest))
  print_expr any_expr (both l r) rest =
      print_expr and_part l (kw kw_and ∷ print_expr unary_part r rest)
  print_expr and_part (both l r) rest =
      print_expr and_part l (kw kw_and ∷ print_expr unary_part r rest)
  print_expr unary_part (both l r) rest =
      lparen ∷ print_expr and_part l (kw kw_and ∷ print_expr unary_part r (rparen ∷ rest))
  print_expr lv (negate e) rest = kw kw_not ∷ print_expr unary_part e rest
  print_expr lv (compare_to a o b) rest = print_operand a (op_token o ∷ print_operand b rest)
  print_expr lv (in_expr a b negated) rest =
      print_operand a (print_negation negated (print_operand b rest))
  print_expr lv (exists p ps) rest = kw kw_exists ∷ ident p ∷ print_parts ps rest

  -- The texts of the numbers in it are read back as those numbers.
  module _ (py : PyChars) where
    abbrev pub Spelled : Literal → Type 0
    Spelled l = number_literal py (spell l) ≡ ok l

    unfoldable mutual
      pub LiteralSpelled : Literal → Type 0
      LiteralSpelled (text s) = Unit
      LiteralSpelled (int n) = Spelled (int n)
      LiteralSpelled (float x) = Spelled (float x)
      LiteralSpelled (bool b) = Unit
      LiteralSpelled (list ls) = ItemsSpelled ls

      pub ItemsSpelled : Literals → Type 0
      ItemsSpelled nil = Unit
      ItemsSpelled (cons l ls) = LiteralSpelled l × ItemsSpelled ls

    unfoldable mutual
      pub OperandSpelled : Operand → Type 0
      OperandSpelled (path p ps) = Unit
      OperandSpelled (literal l) = LiteralSpelled l
      OperandSpelled (func name os) = ArgsSpelled os

      pub ArgsSpelled : Operands → Type 0
      ArgsSpelled no_args = Unit
      ArgsSpelled (arg o os) = OperandSpelled o × ArgsSpelled os

    unfoldable pub ExprSpelled : Expr → Type 0
    ExprSpelled (both l r) = ExprSpelled l × ExprSpelled r
    ExprSpelled (either l r) = ExprSpelled l × ExprSpelled r
    ExprSpelled (negate e) = ExprSpelled e
    ExprSpelled (compare_to a o b) = OperandSpelled a × OperandSpelled b
    ExprSpelled (in_expr a b negated) = OperandSpelled a × OperandSpelled b
    ExprSpelled (exists p ps) = Unit
