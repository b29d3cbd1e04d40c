-- ===== src/Condition/Parser.antt =====
-- stonefold_core/condition.py: the recursive descent of `_Parser`. A parser reads a value off the
-- tokens and returns it with the tokens that are left. Each call of a parser spends a unit of fuel.
pub mod Ends
pub mod Total
use stonefold.Prelude.{
  ℕ, zero, suc, ◌+◌, ◌*◌, String, Bool, true, false, Option, none, some, List, [], ◌∷◌,
  if◌then◌else◌, ◌||◌, length,
}
use stonefold.Condition.{
  Literal, text, int, float, bool, list, Literals, nil, cons, Operand, path, literal, func,
  Operands, no_args, arg, Expr, both, either, negate, compare_to, in_expr, exists, CompareOp,
  Keyword, kw_and, kw_or, kw_not, kw_in, kw_exists, kw_matches, Token, op, lparen, rparen, lbrack,
  rbrack, comma, dot, string, number, duration, ident, truth, kw, condition_error, value_error,
  Result, ok, err, out_of_fuel, ◌>>=◌,
}
use stonefold.Condition.Tokens.{PyChars, tokenize, is}

abbrev pub Parser : Type 0 → Type 0
Parser A = List Token → Result (A × List Token)

abbrev pub rest_of : List Token → List Token
rest_of [] = []
rest_of (t ∷ ts) = ts

same_kw : Keyword → Keyword → Bool
same_kw kw_and kw_and = true
same_kw kw_or kw_or = true
same_kw kw_not kw_not = true
same_kw kw_in kw_in = true
same_kw kw_exists kw_exists = true
same_kw kw_matches kw_matches = true
same_kw _ _ = false

-- `_is_kw`
unfoldable pub is_kw : Keyword → List Token → Bool
unfolding same_kw
is_kw k (kw j ∷ ts) = same_kw j k
is_kw k _ = false

unfoldable pub at_lparen : List Token → Bool
at_lparen (lparen ∷ ts) = true
at_lparen _ = false

unfoldable pub at_rparen : List Token → Bool
at_rparen (rparen ∷ ts) = true
at_rparen _ = false

unfoldable pub at_lbrack : List Token → Bool
at_lbrack (lbrack ∷ ts) = true
at_lbrack _ = false

unfoldable pub at_rbrack : List Token → Bool
at_rbrack (rbrack ∷ ts) = true
at_rbrack _ = false

unfoldable pub at_comma : List Token → Bool
at_comma (comma ∷ ts) = true
at_comma _ = false

unfoldable pub at_dot : List Token → Bool
at_dot (dot ∷ ts) = true
at_dot _ = false

-- `_expect`, at the test for the token
unfoldable pub expect : (List Token → Bool) → Parser (Unit {0})
expect at ts = if at ts then ok (tt, rest_of ts) else err condition_error

unfoldable pub expect_ident : Parser String
expect_ident (ident s ∷ ts) = ok (s, ts)
expect_ident _ = err condition_error

-- the operator at hand, "matches" included
unfoldable pub op_at : List Token → Option CompareOp
op_at (op o ∷ ts) = some o
op_at (kw kw_matches ∷ ts) = some CompareOp.matches
op_at _ = none

unfoldable pub item_of : Operand → Result Literal
item_of (literal l) = ok l
item_of (path p []) = ok (text p)
item_of (path p (q ∷ qs)) = err condition_error
item_of (func name args) = err condition_error

-- `while self._peek().type == "dot"`
unfoldable pub path_rest : ℕ → Parser (List String)
path_rest zero ts = out_of_fuel
path_rest (suc f) ts = elim (at_dot ts) [
  | true ↦
      expect_ident (rest_of ts) >>= (λ (s, us). path_rest f us >>= (λ (ps, vs). ok (s ∷ ps, vs)))
  | false ↦ ok ([], ts)
]

-- "." in value
unfoldable pub has_dot : String → Bool
has_dot String.[] = false
has_dot (String.◌∷◌ c s) = is c "." || has_dot s

unfoldable pub at_end : Expr × List Token → Result Expr
at_end (e, []) = ok e
at_end (e, t ∷ ts) = err condition_error

module _ (py : PyChars) where
  -- float(tok.value) if "." in tok.value else int(tok.value)
  unfoldable pub number_literal : String → Result Literal
  number_literal s =
      if has_dot s
      then elim (py.float_of s) [ none ↦ err value_error | some x ↦ ok (float x) ]
      else elim (py.int_of s) [ none ↦ err value_error | some n ↦ ok (int n) ]

  unfoldable mutual
    -- `_operand`
    pub operand : ℕ → Parser Operand
    operand zero ts = out_of_fuel
    operand (suc f) (string s ∷ ts) = ok (literal (text s), ts)
    operand (suc f) (number s ∷ ts) = number_literal s >>= (λ l. ok (literal l, ts))
    operand (suc f) (duration s ∷ ts) = ok (literal (text s), ts)
    operand (suc f) (truth b ∷ ts) = ok (literal (bool b), ts)
    operand (suc f) (lbrack ∷ ts) = items f ts >>= (λ (ls, us). ok (literal (list ls), us))
    operand (suc f) (ident s ∷ ts) = elim (at_lparen ts) [
      | true ↦ args f (rest_of ts) >>= (λ (as_, us). ok (func s as_, us))
      | false ↦ path_rest f ts >>= (λ (ps, us). ok (path s ps, us))
    ]
    operand (suc f) _ = err condition_error

    -- `_func` behind its parenthesis
    pub args : ℕ → Parser Operands
    args zero ts = out_of_fuel
    args (suc f) ts = elim (at_rparen ts) [
      | true ↦ ok (no_args, rest_of ts)
      | false ↦ more_args f ts
    ]

    pub more_args : ℕ → Parser Operands
    more_args zero ts = out_of_fuel
    more_args (suc f) ts = operand f ts >>= (λ (o, us). elim (at_comma us) [
      | true ↦ more_args f (rest_of us) >>= (λ (os, vs). ok (arg o os, vs))
      | false ↦ expect at_rparen us >>= (λ (_, vs). ok (arg o no_args, vs))
    ])

    -- `_list` behind its bracket
    pub items : ℕ → Parser Literals
    items zero ts = out_of_fuel
    items (suc f) ts = elim (at_rbrack ts) [ true ↦ ok (nil, rest_of ts) | false ↦ more_items f ts ]

    pub more_items : ℕ → Parser Literals
    more_items zero ts = out_of_fuel
    more_items (suc f) ts = operand f ts >>= (λ (o, us). item_of o >>= (λ l. elim (at_comma us) [
      | true ↦ more_items f (rest_of us) >>= (λ (ls, vs). ok (cons l ls, vs))
      | false ↦ expect at_rbrack us >>= (λ (_, vs). ok (cons l nil, vs))
    ]))

  -- `_rhs_collection`
  unfoldable pub collection : ℕ → Parser Operand
  collection f ts = elim (at_lbrack ts) [
    | true ↦ items f (rest_of ts) >>= (λ (ls, us). ok (literal (list ls), us))
    | false ↦ operand f ts
  ]

  -- `_comparison` behind its left operand
  unfoldable pub compare_rest : ℕ → Operand → Parser Expr
  compare_rest f left ts = elim (is_kw kw_in ts) [
    | true ↦ collection f (rest_of ts) >>= (λ (r, us). ok (in_expr left r false, us))
    | false ↦ elim (is_kw kw_not ts) [
      | true ↦
          expect (is_kw kw_in) (rest_of ts)
          >>= (λ (_, us). collection f us >>= (λ (r, vs). ok (in_expr left r true, vs)))
      | false ↦ elim (op_at ts) [
        | none ↦ err condition_error
        | some o ↦ operand f (rest_of ts) >>= (λ (r, us). ok (compare_to left o r, us))
      ]
    ]
  ]

  unfoldable pub comparison : ℕ → Parser Expr
  comparison f ts = elim (is_kw kw_exists ts) [
    | true ↦
        expect_ident (rest_of ts)
        >>= (λ (p, us). path_rest f us >>= (λ (ps, vs). ok (exists p ps, vs)))
    | false ↦ operand f ts >>= (λ (left, us). compare_rest f left us)
  ]

  unfoldable mutual
    -- `_or`, and its loop
    pub or_expr : ℕ → Parser Expr
    or_expr zero ts = out_of_fuel
    or_expr (suc f) ts = and_expr f ts >>= (λ (l, us). or_loop f l us)

    pub or_loop : ℕ → Expr → Parser Expr
    or_loop zero l ts = out_of_fuel
    or_loop (suc f) l ts = elim (is_kw kw_or ts) [
      | true ↦ and_expr f (rest_of ts) >>= (λ (r, us). or_loop f (either l r) us)
      | false ↦ ok (l, ts)
    ]

    pub and_expr : ℕ → Parser Expr
    and_expr zero ts = out_of_fuel
    and_expr (suc f) ts = unary f ts >>= (λ (l, us). and_loop f l us)

    pub and_loop : ℕ → Expr → Parser Expr
    and_loop zero l ts = out_of_fuel
    and_loop (suc f) l ts = elim (is_kw kw_and ts) [
      | true ↦ unary f (rest_of ts) >>= (λ (r, us). and_loop f (both l r) us)
      | false ↦ ok (l, ts)
    ]

    pub unary : ℕ → Parser Expr
    unary zero ts = out_of_fuel
    unary (suc f) ts = elim (is_kw kw_not ts) [
      | true ↦ unary f (rest_of ts) >>= (λ (e, us). ok (negate e, us))
      | false ↦ elim (at_lparen ts) [
        | true ↦
            or_expr f (rest_of ts) >>= (λ (e, us). expect at_rparen us >>= (λ (_, vs). ok (e, vs)))
        | false ↦ comparison f ts
      ]
    ]

  -- the parser over all tokens, with fuel that is enough
  unfoldable pub parse_tokens : List Token → Result Expr
  parse_tokens ts = or_expr (8 * length ts + 8) ts >>= at_end

  -- `parse`
  unfoldable pub parse : String → Result Expr
  parse src = tokenize py src >>= parse_tokens
