-- ===== src/Condition/Tokens/Ends.antt =====
-- The tokenizer always ends: each round takes a character at least.
use Prim.Native.Char.{Char}
use stonefold.Prelude.{
  ℕ, zero, suc, ◌≤◌, ◌<◌, ◌≡◌, refl, ◌≢◌, String, Bool, true, false, Option, none, List, ◌||◌, ◌&&◌,
  arith, not, is_some, if◌then◌else◌,
}
use stonefold.Condition.{Token, Fault, condition_error, Result, ok, err, out_of_fuel, ◌>>=◌}
use stonefold.Condition.Tokens.{
  PyChars, len, is, single, next_is, drop_one, span, string_token, number_token, op_token, token_at,
  found, number_of, number_char, word_char, word, tokenize_from, tokenize, add_token,
}

-- what a token leaves of the text
abbrev left {ℓ} : {A : Type ℓ} → Result (A × String) → ℕ
left (ok (a, s)) = len s
left (err e) = 0
left out_of_fuel = 0

span-len : (p : Char → Bool) (s : String) → len (span p s).1 ≤ len s
unfolding span len
span-len p String.[] = omega arith
span-len p (String.◌∷◌ c s) = ground (arith, span-len p s)

drop_one-len : (s : String) → len (drop_one s) ≤ len s
unfolding drop_one len
drop_one-len String.[] = omega arith
drop_one-len (String.◌∷◌ c s) = omega arith

span_head :
    (p : Char → Bool) (c : Char) (s : String) → p c ≡ true → len (span p (String.◌∷◌ c s)).1 ≤ len s
unfolding span
span_head p c s h = ground (arith, span-len p s)

left-found : (r : Result (Token × String)) → left (found r) ≡ left r
unfolding found
left-found (ok (t, s)) = refl
left-found (err e) = refl
left-found out_of_fuel = refl

found-ends : (r : Result (Token × String)) → r ≢ out_of_fuel → found r ≢ out_of_fuel
unfolding found
found-ends (ok (t, s)) h = cc
found-ends (err e) h = cc
found-ends out_of_fuel h = absurd (h refl)

ok-ends : {A : Type 0} (a : A) → ok a ≢ out_of_fuel
ok-ends a = cc

err-ends : {A : Type 0} (e : Fault) → ◌≢◌ {A = Result A} (err e) out_of_fuel
err-ends e = cc

if-ends :
    {A : Type 0} (b : Bool) {x y : Result A}
    → x ≢ out_of_fuel
    → y ≢ out_of_fuel
    → (if b then x else y) ≢ out_of_fuel
if-ends true h k = h
if-ends false h k = k

added :
    (t : Option Token) (r : Result (List Token))
    → r ≢ out_of_fuel
    → (r >>= (λ ts. ok (add_token t ts))) ≢ out_of_fuel
added t (ok ts) h = cc
added t (err e) h = cc
added t out_of_fuel h = absurd (h refl)

module _ (py : PyChars)
    (alpha_alnum : (c : Char) → py.is_alpha c ≡ true → py.is_alnum c ≡ true) where
  op_token-left : (c : Char) (s : String) → left (op_token py c s) ≤ len s
  unfolding op_token
  op_token-left c s = ground (arith, drop_one-len s)

  string_token-left : (c : Char) (s : String) → left (string_token py c s) ≤ len s
  unfolding string_token
  string_token-left c s =
      let taken = span-len (λ d. not (is d c)) s in
      ground (arith, taken, drop_one-len (span (λ d. not (is d c)) s).1)

  number_token-left : (num rest : String) → left (number_token py num rest) ≤ len rest
  unfolding number_token
  number_token-left num rest = ground (arith, drop_one-len rest)

  number_of-left : (w : String × String) → left (number_of py w) ≤ len w.1
  unfolding number_of
  number_of-left (num, rest) = rw left-found (number_token-left num rest)

  word-left : (w : String × String) → left (word py w) ≤ len w.1
  unfolding word
  word-left (w, rest) = omega arith

  token_at-left : (c : Char) (s : String) → left (token_at py c s) ≤ len s
  unfolding token_at word_char number_char
  token_at-left c s = ground (
    arith,
    left-found (op_token py c s),
    op_token-left c s,
    left-found (string_token py c s),
    string_token-left c s,
    number_of-left (span (number_char py) (String.◌∷◌ c s)),
    span_head (number_char py) c s,
    number_of-left (String.◌∷◌ c (span (number_char py) s).0, (span (number_char py) s).1),
    span-len (number_char py) s,
    word-left (span (word_char py) (String.◌∷◌ c s)),
    span_head (word_char py) c s,
    alpha_alnum c,
  )

  op_token-ends : (c : Char) (s : String) → op_token py c s ≢ out_of_fuel
  unfolding op_token
  op_token-ends c s = ground arith

  string_token-ends : (c : Char) (s : String) → string_token py c s ≢ out_of_fuel
  unfolding string_token
  string_token-ends c s = ground arith

  number_of-ends : (w : String × String) → number_of py w ≢ out_of_fuel
  unfolding number_of number_token found
  number_of-ends (num, rest) = ground arith

  word-ends : (w : String × String) → word py w ≢ out_of_fuel
  unfolding word
  word-ends (w, rest) = cc

  token_at-ends : (c : Char) (s : String) → token_at py c s ≢ out_of_fuel
  unfolding token_at
  token_at-ends c s =
      let word_text = span (word_char py) (String.◌∷◌ c s) in
      let digits = span (number_char py) (String.◌∷◌ c s) in
      let more = span (number_char py) s in
      let on_word =
        if-ends (py.is_alpha c || is c "_") (word-ends word_text) (err-ends condition_error) in
      let on_minus =
        if-ends (is c "-" && next_is py.is_digit s) (number_of-ends (String.◌∷◌ c more.0, more.1))
          on_word in
      let on_digit = if-ends (py.is_digit c) (number_of-ends digits) on_minus in
      let on_quote =
        if-ends (is c "'" || is c "\"") (found-ends _ (string_token-ends c s)) on_digit in
      let on_op =
        if-ends (is c "=" || is c "!" || is c "<" || is c ">") (found-ends _ (op_token-ends c s))
          on_quote in
      let on_single = if-ends (is_some (single c)) (ok-ends (single c, s)) on_op in
      if-ends (py.is_space c) (ok-ends (none, s)) on_single

  tokenize_from-ends : (f : ℕ) (s : String) → len s < f → tokenize_from py f s ≢ out_of_fuel
  unfolding tokenize_from len
  tokenize_from-ends zero s h = absurd (omega arith)
  tokenize_from-ends (suc f) String.[] h = cc
  tokenize_from-ends (suc f) (String.◌∷◌ c s) h =
      rest (token_at py c s) (token_at-left c s) (token_at-ends c s)
        (λ u le. tokenize_from-ends f u (omega arith))
    where
      rest :
          (r : Result (Option Token × String))
          → left r ≤ len s
          → r ≢ out_of_fuel
          → ((u : String) → len u ≤ len s → tokenize_from py f u ≢ out_of_fuel)
          → (r >>= (λ (t, u). tokenize_from py f u >>= (λ ts. ok (add_token t ts)))) ≢ out_of_fuel
      rest (ok (t, u)) le ne ih = added t (tokenize_from py f u) (ih u le)
      rest (err e) le ne ih = cc
      rest out_of_fuel le ne ih = absurd (ne refl)

  pub tokenize-ends : (s : String) → tokenize py s ≢ out_of_fuel
  unfolding tokenize
  tokenize-ends s = tokenize_from-ends (suc (len s)) s (omega arith)
