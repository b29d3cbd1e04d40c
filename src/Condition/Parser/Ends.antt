-- ===== src/Condition/Parser/Ends.antt =====
-- The parser always ends: eight units of fuel for each token are enough.
use stonefold.Prelude.{
  ℕ, zero, suc, ◌+◌, ◌*◌, ◌≤◌, ◌<◌, ◌≡◌, refl, ◌≢◌, String, Bool, true, false, Bool-cases, inl, inr,
  List, [], ◌∷◌, length, arith,
}
use stonefold.Condition.{
  Operand, path, literal, func, Token, lbrack, string, number, duration, ident, truth, Fault,
  Result, ok, err, out_of_fuel, ◌>>=◌,
}
use stonefold.Condition.Tokens.{PyChars}
use stonefold.Condition.Parser.{
  rest_of, at_lparen, at_rparen, at_lbrack, at_rbrack, at_comma, at_dot, expect, expect_ident,
  item_of, path_rest, number_literal, operand, args, more_args, items, more_items,
}

-- The run did not run out of fuel, and what it leaves has fewer than `n` tokens.
pub data Reads {A : Type 0} (n : ℕ) : Result (A × List Token) → Type 0 where
  reads : (a : A) (ts : List Token) → length ts < n → Reads n (ok (a, ts))
  stops : (e : Fault) → Reads n (err e)

module _ {A : Type 0} where
  pub Reads-more : {n m : ℕ} {r : Result (A × List Token)} → Reads n r → n ≤ m → Reads m r
  Reads-more (reads a ts h) le = reads a ts (omega arith)
  Reads-more (stops e) le = stops e

  pub Reads-bind :
      {B : Type 0} {n m : ℕ} {r : Result (A × List Token)}
      (f : A × List Token → Result (B × List Token))
      → Reads n r
      → ((a : A) (us : List Token) → length us < n → Reads m (f (a, us)))
      → Reads m (r >>= f)
  Reads-bind f (reads a ts h) k = k a ts h
  Reads-bind f (stops e) k = stops e

  pub Reads-pure :
      {B : Type 0} {m : ℕ} {r : Result A} (f : A → Result (B × List Token))
      → r ≢ out_of_fuel
      → ((a : A) → Reads m (f a))
      → Reads m (r >>= f)
  Reads-pure {r = ok a} f ne k = k a
  Reads-pure {r = err e} f ne k = stops e
  Reads-pure {r = out_of_fuel} f ne k = absurd (ne refl)

pub rest_lt :
    (at : List Token → Bool) (ts : List Token)
    → at [] ≡ false
    → at ts ≡ true
    → length (rest_of ts) < length ts
rest_lt at [] e h = absurd (ground (arith, e, h))
rest_lt at (t ∷ ts) e h = omega arith

none_dot : at_dot [] ≡ false
unfolding at_dot
none_dot = refl

dot_lt : (ts : List Token) → at_dot ts ≡ true → length (rest_of ts) < length ts
dot_lt ts = rest_lt at_dot ts none_dot

none_lparen : at_lparen [] ≡ false
unfolding at_lparen
none_lparen = refl

pub lparen_lt : (ts : List Token) → at_lparen ts ≡ true → length (rest_of ts) < length ts
lparen_lt ts = rest_lt at_lparen ts none_lparen

pub none_rparen : at_rparen [] ≡ false
unfolding at_rparen
none_rparen = refl

rparen_lt : (ts : List Token) → at_rparen ts ≡ true → length (rest_of ts) < length ts
rparen_lt ts = rest_lt at_rparen ts none_rparen

none_lbrack : at_lbrack [] ≡ false
unfolding at_lbrack
none_lbrack = refl

pub lbrack_lt : (ts : List Token) → at_lbrack ts ≡ true → length (rest_of ts) < length ts
lbrack_lt ts = rest_lt at_lbrack ts none_lbrack

none_rbrack : at_rbrack [] ≡ false
unfolding at_rbrack
none_rbrack = refl

rbrack_lt : (ts : List Token) → at_rbrack ts ≡ true → length (rest_of ts) < length ts
rbrack_lt ts = rest_lt at_rbrack ts none_rbrack

none_comma : at_comma [] ≡ false
unfolding at_comma
none_comma = refl

comma_lt : (ts : List Token) → at_comma ts ≡ true → length (rest_of ts) < length ts
comma_lt ts = rest_lt at_comma ts none_comma

pub expect-Reads :
    (at : List Token → Bool) (ts : List Token) → at [] ≡ false → Reads (length ts) (expect at ts)
unfolding expect
expect-Reads at ts e = elim (Bool-cases (at ts)) [
  | inl h ↦ rw (expect, h) (reads tt (rest_of ts) (rest_lt at ts e h))
  | inr h ↦ rw (expect, h) (stops _)
]

pub expect_ident-Reads : (ts : List Token) → Reads (length ts) (expect_ident ts)
unfolding expect_ident
expect_ident-Reads (ident s ∷ ts) = reads s ts (omega arith)
expect_ident-Reads [] = stops _
expect_ident-Reads (_ ∷ ts) = stops _

pub path_rest-Reads :
    (f : ℕ) (ts : List Token) → length ts < f → Reads (suc (length ts)) (path_rest f ts)
unfolding path_rest
path_rest-Reads zero ts h = absurd (omega arith)
path_rest-Reads (suc f) ts h = elim (Bool-cases (at_dot ts)) [
  | inl e ↦
      let lt = dot_lt ts e in
      rw (path_rest, e)
        (Reads-bind _ (expect_ident-Reads (rest_of ts)) λ s us k.
          Reads-bind _ (path_rest-Reads f us (omega arith)) λ ps vs l. reads _ vs (omega arith))
  | inr e ↦ rw (path_rest, e) (reads [] ts (omega arith))
]

item_of-ends : (o : Operand) → item_of o ≢ out_of_fuel
unfolding item_of
item_of-ends (literal l) = cc
item_of-ends (path p []) = cc
item_of-ends (path p (q ∷ qs)) = cc
item_of-ends (func name as_) = cc

module _ (py : PyChars) where
  number_literal-ends : (s : String) → number_literal py s ≢ out_of_fuel
  unfolding number_literal
  number_literal-ends s = ground arith

  mutual
    unfolding operand args more_args items more_items

    pub operand-Reads :
        (f : ℕ) (ts : List Token) → 8 * length ts + 1 ≤ f → Reads (length ts) (operand py f ts)
    operand-Reads zero ts h = absurd (omega arith)
    operand-Reads (suc f) (string s ∷ ts) h = reads _ ts (omega arith)
    operand-Reads (suc f) (number s ∷ ts) h =
        Reads-pure _ (number_literal-ends s) λ l. reads _ ts (omega arith)
    operand-Reads (suc f) (duration s ∷ ts) h = reads _ ts (omega arith)
    operand-Reads (suc f) (truth b ∷ ts) h = reads _ ts (omega arith)
    operand-Reads (suc f) (lbrack ∷ ts) h =
        Reads-bind _ (items-Reads f ts (omega arith)) λ ls us l. reads _ us (omega arith)
    operand-Reads (suc f) (ident s ∷ ts) h = elim (Bool-cases (at_lparen ts)) [
      | inl e ↦
          let lt = lparen_lt ts e in
          rw (operand, e)
            (Reads-bind _ (args-Reads f (rest_of ts) (omega arith))
              λ os us l. reads _ us (omega arith))
      | inr e ↦
          rw (operand, e)
            (Reads-bind _ (path_rest-Reads f ts (omega arith)) λ ps us l. reads _ us (omega arith))
    ]
    operand-Reads (suc f) [] h = stops _
    operand-Reads (suc f) (_ ∷ ts) h = stops _

    args-Reads :
        (f : ℕ) (ts : List Token) → 8 * length ts + 3 ≤ f → Reads (suc (length ts)) (args py f ts)
    args-Reads zero ts h = absurd (omega arith)
    args-Reads (suc f) ts h = elim (Bool-cases (at_rparen ts)) [
      | inl e ↦ let lt = rparen_lt ts e in rw (args, e) (reads _ (rest_of ts) (omega arith))
      | inr e ↦ rw (args, e) (Reads-more (more_args-Reads f ts (omega arith)) (omega arith))
    ]

    more_args-Reads :
        (f : ℕ) (ts : List Token) → 8 * length ts + 2 ≤ f → Reads (length ts) (more_args py f ts)
    more_args-Reads zero ts h = absurd (omega arith)
    more_args-Reads (suc f) ts h = Reads-bind _ (operand-Reads f ts (omega arith)) λ o us l.
        elim (Bool-cases (at_comma us)) [
          | inl e ↦
              let lt = comma_lt us e in
              rw e (
                Reads-bind _ (more_args-Reads f (rest_of us) (omega arith))
                  λ os vs k. reads _ vs (omega arith))
          | inr e ↦ rw e (
              Reads-bind _ (expect-Reads at_rparen us none_rparen)
                λ _ vs k. reads _ vs (omega arith))
        ]

    pub items-Reads :
        (f : ℕ) (ts : List Token) → 8 * length ts + 3 ≤ f → Reads (suc (length ts)) (items py f ts)
    items-Reads zero ts h = absurd (omega arith)
    items-Reads (suc f) ts h = elim (Bool-cases (at_rbrack ts)) [
      | inl e ↦ let lt = rbrack_lt ts e in rw (items, e) (reads _ (rest_of ts) (omega arith))
      | inr e ↦ rw (items, e) (Reads-more (more_items-Reads f ts (omega arith)) (omega arith))
    ]

    more_items-Reads :
        (f : ℕ) (ts : List Token) → 8 * length ts + 2 ≤ f → Reads (length ts) (more_items py f ts)
    more_items-Reads zero ts h = absurd (omega arith)
    more_items-Reads (suc f) ts h = Reads-bind _ (operand-Reads f ts (omega arith)) λ o us l.
        Reads-pure _ (item_of-ends o) λ i. elim (Bool-cases (at_comma us)) [
          | inl e ↦
              let lt = comma_lt us e in
              rw e (
                Reads-bind _ (more_items-Reads f (rest_of us) (omega arith))
                  λ os vs k. reads _ vs (omega arith))
          | inr e ↦ rw e (
              Reads-bind _ (expect-Reads at_rbrack us none_rbrack)
                λ _ vs k. reads _ vs (omega arith))
        ]
