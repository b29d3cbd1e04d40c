-- ===== src/Condition/Parser/Total.antt =====
-- `parse` ends on every text.
use Prim.Native.Char.{Char}
use stonefold.Prelude.{
  ℕ, zero, suc, ◌+◌, ◌*◌, ◌≤◌, ◌<◌, ◌≡◌, refl, ◌≢◌, String, true, false, Bool-cases, Option-cases,
  none, ◌⊎◌, inl, inr, List, [], ◌∷◌, length, arith,
}
use stonefold.Condition.{
  Operand, Expr, Keyword, kw_and, kw_or, kw_not, kw_in, kw_exists, Token, Fault, Result, ok, err,
  out_of_fuel, ◌>>=◌,
}
use stonefold.Condition.Tokens.{PyChars, tokenize}
use stonefold.Condition.Tokens.Ends.{tokenize-ends}
use stonefold.Condition.Parser.{
  rest_of, is_kw, at_lparen, at_rparen, at_lbrack, op_at, collection, compare_rest, comparison,
  or_expr, or_loop, and_expr, and_loop, unary, at_end, parse_tokens, parse,
}
use stonefold.Condition.Parser.Ends.{
  Reads, reads, stops, Reads-more, Reads-bind, rest_lt, lparen_lt, lbrack_lt, none_rparen,
  expect-Reads, expect_ident-Reads, path_rest-Reads, operand-Reads, items-Reads,
}

none_kw : (k : Keyword) → is_kw k [] ≡ false
unfolding is_kw
none_kw k = refl

kw_lt : (k : Keyword) (ts : List Token) → is_kw k ts ≡ true → length (rest_of ts) < length ts
kw_lt k ts = rest_lt (is_kw k) ts (none_kw k)

op_lt : (ts : List Token) → op_at ts ≢ none → length (rest_of ts) < length ts
unfolding op_at
op_lt [] h = absurd (h refl)
op_lt (t ∷ ts) h = omega arith

finishes : (n : ℕ) (r : Result (Expr × List Token)) → Reads n r → (r >>= at_end) ≢ out_of_fuel
unfolding at_end
finishes n r (reads a [] h) = cc
finishes n r (reads a (t ∷ ts) h) = cc
finishes n r (stops e) = cc

bind-ends :
    {A B : Type 0} (r : Result A) (f : A → Result B)
    → r ≢ out_of_fuel
    → ((a : A) → f a ≢ out_of_fuel)
    → (r >>= f) ≢ out_of_fuel
bind-ends (ok a) f h k = k a
bind-ends (err e) f h k = cc
bind-ends out_of_fuel f h k = absurd (h refl)

outcome :
    {A : Type 0} (r : Result A)
    → r ≢ out_of_fuel
    → ((a : A) × (r ≡ ok a)) ⊎ ((f : Fault) × (r ≡ err f))
outcome (ok a) h = inl (a, refl)
outcome (err e) h = inr (e, refl)
outcome out_of_fuel h = absurd (h refl)

module _ (py : PyChars) where
  collection-Reads :
      (f : ℕ) (ts : List Token) → 8 * length ts + 3 ≤ f → Reads (length ts) (collection py f ts)
  unfolding collection
  collection-Reads f ts h = elim (Bool-cases (at_lbrack ts)) [
    | inl e ↦
        let lt = lbrack_lt ts e in
        rw (collection, e)
          (Reads-bind _ (items-Reads py f (rest_of ts) (omega arith))
            λ ls us l. reads _ us (omega arith))
    | inr e ↦ rw (collection, e) (operand-Reads py f ts (omega arith))
  ]

  compare_rest-Reads :
      (f : ℕ) (left : Operand) (ts : List Token)
      → 8 * length ts + 3 ≤ f
      → Reads (suc (length ts)) (compare_rest py f left ts)
  unfolding compare_rest
  compare_rest-Reads f left ts h = elim (Bool-cases (is_kw kw_in ts)) [
    | inl e ↦
        let lt = kw_lt kw_in ts e in
        rw (compare_rest, e)
          (Reads-bind _ (collection-Reads f (rest_of ts) (omega arith))
            λ r us l. reads _ us (omega arith))
    | inr e ↦ elim (Bool-cases (is_kw kw_not ts)) [
      | inl n ↦
          let lt = kw_lt kw_not ts n in
          rw (compare_rest, e, n)
            (Reads-bind _ (expect-Reads (is_kw kw_in) (rest_of ts) (none_kw kw_in)) λ _ us l.
              Reads-bind _ (collection-Reads f us (omega arith)) λ r vs k. reads _ vs (omega arith))
      | inr n ↦ elim (Option-cases (op_at ts)) [
        | inl o ↦ rw (compare_rest, e, n, o) (stops _)
        | inr (c, o) ↦
            let lt = op_lt ts (cc) in
            rw (compare_rest, e, n, o)
              (Reads-bind _ (operand-Reads py f (rest_of ts) (omega arith))
                λ r us l. reads _ us (omega arith))
      ]
    ]
  ]

  comparison-Reads :
      (f : ℕ) (ts : List Token) → 8 * length ts + 1 ≤ f → Reads (length ts) (comparison py f ts)
  unfolding comparison
  comparison-Reads f ts h = elim (Bool-cases (is_kw kw_exists ts)) [
    | inl e ↦
        let lt = kw_lt kw_exists ts e in
        rw (comparison, e)
          (Reads-bind _ (expect_ident-Reads (rest_of ts)) λ p us l.
            Reads-bind _ (path_rest-Reads f us (omega arith)) λ ps vs k. reads _ vs (omega arith))
    | inr e ↦
        rw (comparison, e)
          (Reads-bind _ (operand-Reads py f ts h)
            λ left us l. Reads-more (compare_rest-Reads f left us (omega arith)) (omega arith))
  ]

  mutual
    unfolding or_expr or_loop and_expr and_loop unary

    or_expr-Reads :
        (f : ℕ) (ts : List Token) → 8 * length ts + 4 ≤ f → Reads (length ts) (or_expr py f ts)
    or_expr-Reads zero ts h = absurd (omega arith)
    or_expr-Reads (suc f) ts h =
        Reads-bind _ (and_expr-Reads f ts (omega arith))
          λ l us k. Reads-more (or_loop-Reads f l us (omega arith)) (omega arith)

    or_loop-Reads :
        (f : ℕ) (l : Expr) (ts : List Token)
        → 8 * length ts + 1 ≤ f
        → Reads (suc (length ts)) (or_loop py f l ts)
    or_loop-Reads zero l ts h = absurd (omega arith)
    or_loop-Reads (suc f) l ts h = elim (Bool-cases (is_kw kw_or ts)) [
      | inl e ↦
          let lt = kw_lt kw_or ts e in
          rw (or_loop, e)
            (Reads-bind _ (and_expr-Reads f (rest_of ts) (omega arith))
              λ r us k. Reads-more (or_loop-Reads f _ us (omega arith)) (omega arith))
      | inr e ↦ rw (or_loop, e) (reads l ts (omega arith))
    ]

    and_expr-Reads :
        (f : ℕ) (ts : List Token) → 8 * length ts + 3 ≤ f → Reads (length ts) (and_expr py f ts)
    and_expr-Reads zero ts h = absurd (omega arith)
    and_expr-Reads (suc f) ts h =
        Reads-bind _ (unary-Reads f ts (omega arith))
          λ l us k. Reads-more (and_loop-Reads f l us (omega arith)) (omega arith)

    and_loop-Reads :
        (f : ℕ) (l : Expr) (ts : List Token)
        → 8 * length ts + 1 ≤ f
        → Reads (suc (length ts)) (and_loop py f l ts)
    and_loop-Reads zero l ts h = absurd (omega arith)
    and_loop-Reads (suc f) l ts h = elim (Bool-cases (is_kw kw_and ts)) [
      | inl e ↦
          let lt = kw_lt kw_and ts e in
          rw (and_loop, e)
            (Reads-bind _ (unary-Reads f (rest_of ts) (omega arith))
              λ r us k. Reads-more (and_loop-Reads f _ us (omega arith)) (omega arith))
      | inr e ↦ rw (and_loop, e) (reads l ts (omega arith))
    ]

    unary-Reads :
        (f : ℕ) (ts : List Token) → 8 * length ts + 2 ≤ f → Reads (length ts) (unary py f ts)
    unary-Reads zero ts h = absurd (omega arith)
    unary-Reads (suc f) ts h = elim (Bool-cases (is_kw kw_not ts)) [
      | inl e ↦
          let lt = kw_lt kw_not ts e in
          rw (unary, e)
            (Reads-bind _ (unary-Reads f (rest_of ts) (omega arith))
              λ r us k. reads _ us (omega arith))
      | inr e ↦ elim (Bool-cases (at_lparen ts)) [
        | inl p ↦
            let lt = lparen_lt ts p in
            rw (unary, e, p)
              (Reads-bind _ (or_expr-Reads f (rest_of ts) (omega arith)) λ r us k.
                Reads-bind _ (expect-Reads at_rparen us none_rparen)
                  λ _ vs l. reads _ vs (omega arith))
        | inr p ↦ rw (unary, e, p) (comparison-Reads f ts (omega arith))
      ]
    ]

  pub parse_tokens-ends : (ts : List Token) → parse_tokens py ts ≢ out_of_fuel
  unfolding parse_tokens
  parse_tokens-ends ts = finishes _ _ (or_expr-Reads (8 * length ts + 8) ts (omega arith))

  -- Parsing a text ends: it gives an expression or raises, whatever the text, if every letter counts
  -- as alphanumeric, as Python's do.
  pub parse-ends :
      (src : String)
      → ((c : Char) → py.is_alpha c ≡ true → py.is_alnum c ≡ true)
      → ((e : Expr) × (parse py src ≡ ok e)) ⊎ ((f : Fault) × (parse py src ≡ err f))
  unfolding parse
  parse-ends src alpha_alnum =
      outcome (parse py src)
        (bind-ends (tokenize py src) _ (tokenize-ends py alpha_alnum src) (parse_tokens-ends))
