-- ===== src/Condition/Printer/RoundTrip.antt =====
-- An expression that was written is read back.
use stonefold.Prelude.{
  zero, suc, ◌+◌, ◌*◌, ◌≡◌, refl, sym, ◌∙◌, String, Bool, List, [], ◌∷◌, length, arith,
}
use stonefold.Condition.{
  Literal, Operand, CompareOp, Expr, both, either, negate, compare_to, in_expr, exists, kw_not,
  Token, ok,
}
use stonefold.Condition.Tokens.{PyChars}
use stonefold.Condition.Parser.{is_kw, at_lparen, at_dot, unary, at_end, parse_tokens}
use stonefold.Condition.Printer.{
  print_operand, print_negation, op_token, Level, any_expr, and_part, unary_part, print_expr,
  ExprSpelled,
}
use stonefold.Condition.Printer.Comparing.{
  operand-no_kw, operand-no_lparen, comparison-compare, comparison-in, comparison-exists,
}
use stonefold.Condition.Printer.Levels.{
  ors, ands, OrReads, AndReads, UnaryReads, or_whole, and_of_unary, or_of_and, unary_of_or,
  either_reads, both_reads,
}

module _ (spell : Literal → String) (py : PyChars) where
  record IsRead (e : Expr) : Type 0 where
    by_or : OrReads spell py e
    by_and : AndReads spell py e
    by_unary : UnaryReads spell py e

  from_or : (l r : Expr) → OrReads spell py (either l r) → IsRead (either l r)
  unfolding ands print_expr
  from_or l r reads =
      let unary_reads = unary_of_or spell py (either l r) (λ rest. refl) reads in
      record {
        by_or = reads;
        by_and = and_of_unary spell py (either l r) refl (λ rest. refl) unary_reads;
        by_unary = unary_reads;
      }

  from_and : (l r : Expr) → AndReads spell py (both l r) → IsRead (both l r)
  unfolding ors print_expr
  from_and l r reads =
      let or_reads = or_of_and spell py (both l r) refl (λ rest. refl) reads in
      record {
        by_or = or_reads;
        by_and = reads;
        by_unary = unary_of_or spell py (both l r) (λ rest. refl) or_reads;
      }

  -- an expression that is written alike at every level
  from_unary :
      (e : Expr)
      → ors e ≡ 0
      → ands e ≡ 0
      → ((lv : Level) (rest : List Token)
          → print_expr spell lv e rest ≡ print_expr spell unary_part e rest)
      → UnaryReads spell py e
      → IsRead e
  from_unary e no_or no_and same reads =
      let and_reads = and_of_unary spell py e no_and (same and_part) reads in
      record {
        by_or =
            or_of_and spell py e no_or (λ rest. same any_expr rest ∙ sym (same and_part rest))
              and_reads;
        by_and = and_reads;
        by_unary = reads;
      }

  negate_reads : (e : Expr) → UnaryReads spell py e → UnaryReads spell py (negate e)
  unfolding unary is_kw print_expr
  negate_reads e reads zero rest h calm = absurd (omega arith)
  negate_reads e reads (suc f) rest h calm = rw (reads f rest (omega arith) calm) refl

  compare_reads :
      (a : Operand) (o : CompareOp) (b : Operand)
      → ExprSpelled spell py (compare_to a o b)
      → UnaryReads spell py (compare_to a o b)
  unfolding unary print_expr ExprSpelled
  compare_reads a o b s zero rest h calm = absurd (omega arith)
  compare_reads a o b s (suc f) rest h calm =
      let behind = op_token o ∷ print_operand spell b rest in
      rw (unary, operand-no_kw spell kw_not a behind, operand-no_lparen spell a behind)
        (comparison-compare spell py a o b f rest (omega arith) calm s)

  in_reads :
      (a b : Operand) (negated : Bool)
      → ExprSpelled spell py (in_expr a b negated)
      → UnaryReads spell py (in_expr a b negated)
  unfolding unary print_expr ExprSpelled
  in_reads a b negated s zero rest h calm = absurd (omega arith)
  in_reads a b negated s (suc f) rest h calm =
      let behind = print_negation negated (print_operand spell b rest) in
      rw (unary, operand-no_kw spell kw_not a behind, operand-no_lparen spell a behind)
        (comparison-in spell py a b negated f rest (omega arith) calm s)

  exists_reads : (p : String) (ps : List String) → UnaryReads spell py (exists p ps)
  unfolding unary print_expr is_kw at_lparen
  exists_reads p ps zero rest h calm = absurd (omega arith)
  exists_reads p ps (suc f) rest h calm =
      comparison-exists spell py p ps f rest (omega arith) calm.0

  expr_reads : (e : Expr) → ExprSpelled spell py e → IsRead e
  unfolding ExprSpelled print_expr ors ands
  expr_reads (either l r) (s, s') =
      from_or l r (either_reads spell py l r (expr_reads l s).by_or (expr_reads r s').by_and)
  expr_reads (both l r) (s, s') =
      from_and l r (both_reads spell py l r (expr_reads l s).by_and (expr_reads r s').by_unary)
  expr_reads (negate e) s =
      from_unary (negate e) refl refl (λ lv rest. refl) (negate_reads e (expr_reads e s).by_unary)
  expr_reads (compare_to a o b) s =
      from_unary (compare_to a o b) refl refl (λ lv rest. refl) (compare_reads a o b s)
  expr_reads (in_expr a b negated) s =
      from_unary (in_expr a b negated) refl refl (λ lv rest. refl) (in_reads a b negated s)
  expr_reads (exists p ps) s =
      from_unary (exists p ps) refl refl (λ lv rest. refl) (exists_reads p ps)

  -- Parsing an expression as the grammar writes it, with parentheses only where they are needed,
  -- gives that expression: operators associate to the left, `and` binds tighter than `or`, and
  -- `not` tightest. The numbers in it are spelled as Python reads them.
  pub parse_tokens-print :
      (e : Expr) → ExprSpelled spell py e → parse_tokens py (print_expr spell any_expr e []) ≡ ok e
  unfolding parse_tokens at_end is_kw at_dot at_lparen
  parse_tokens-print e s =
      let printed = print_expr spell any_expr e [] in
      rw
        (or_whole spell py e (expr_reads e s).by_or (8 * length printed + 8) [] (omega arith)
          (refl, refl) refl refl)
        refl
