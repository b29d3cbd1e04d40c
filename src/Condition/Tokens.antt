-- ===== src/Condition/Tokens.antt =====
-- stonefold_core/condition.py: `tokenize`.
pub mod Ends
use Prim.Native.Char.{Char}
use stonefold.Prelude.{
  ℕ, suc, ◌+◌, ℤ, String, Bool, true, false, not, Option, none, some, List, [], ◌∷◌, ◌&&◌, ◌||◌,
  if◌then◌else◌, str_eq, ◌+s◌, zero, is_some,
}
use stonefold.Condition.{
  Token, op, lparen, rparen, lbrack, rbrack, comma, dot, string, number, duration, ident, truth, kw,
  CompareOp, Keyword, kw_and, kw_or, kw_not, kw_in, kw_exists, kw_matches, Fault, condition_error,
  Result, ok, err, out_of_fuel, ◌>>=◌,
}

unfoldable pub len : String → ℕ
len String.[] = 0
len (String.◌∷◌ c s) = suc (len s)

-- Python's character classes, which are tables of Unicode, and its readings of numbers.
pub record PyChars : Type 0 where
  pub is_space : Char → Bool
  pub is_digit : Char → Bool
  pub is_alpha : Char → Bool
  pub is_alnum : Char → Bool
  pub int_of : String → Option ℤ
  pub float_of : String → Option ℕ

abbrev pub one : Char → String
one c = String.◌∷◌ c String.[]

abbrev pub is : Char → Char → Bool
is c d = str_eq (one c) (one d)

-- `_SINGLE`
unfoldable pub single : Char → Option Token
single c =
    if is c "("
    then some lparen
    else if is c ")"
    then some rparen
    else if is c "["
    then some lbrack
    else if is c "]"
    then some rbrack
    else if is c ","
    then some comma
    else if is c "."
    then some dot
    else none

-- `src[i + 1]`, with the test whether it is there
unfoldable pub next_is : (Char → Bool) → String → Bool
next_is p String.[] = false
next_is p (String.◌∷◌ c s) = p c

unfoldable pub drop_one : String → String
drop_one String.[] = String.[]
drop_one (String.◌∷◌ c s) = s

first_char : String → String
first_char String.[] = String.[]
first_char (String.◌∷◌ c s) = one c

-- `while j < n and p(src[j])`: the text that is taken, and the rest
unfoldable pub span : (Char → Bool) → String → String × String
span p String.[] = (String.[], String.[])
span p (String.◌∷◌ c s) =
    let more = span p s in
    if p c then (String.◌∷◌ c more.0, more.1) else (String.[], String.◌∷◌ c s)

-- an operator of two characters, of which the first is at hand
unfoldable pub op_two : Char → Option CompareOp
op_two c =
    if is c "="
    then some CompareOp.eq
    else if is c "!"
    then some CompareOp.ne
    else if is c "<"
    then some CompareOp.le
    else if is c ">"
    then some CompareOp.ge
    else none

unfoldable pub op_one : Char → Option CompareOp
op_one c = if is c "<" then some CompareOp.lt else if is c ">" then some CompareOp.gt else none

unfoldable pub word_token : String → Token
word_token w =
    if str_eq w "true"
    then truth true
    else if str_eq w "false"
    then truth false
    else if str_eq w "and"
    then kw kw_and
    else if str_eq w "or"
    then kw kw_or
    else if str_eq w "not"
    then kw kw_not
    else if str_eq w "in"
    then kw kw_in
    else if str_eq w "exists"
    then kw kw_exists
    else if str_eq w "matches"
    then kw kw_matches
    else ident w

found : Result (Token × String) → Result (Option Token × String)
found r = r >>= (λ (t, rest). ok (some t, rest))

abbrev pub add_token : Option Token → List Token → List Token
add_token none ts = ts
add_token (some t) ts = t ∷ ts

module _ (py : PyChars) where
  word_char : Char → Bool
  word_char c = py.is_alnum c || is c "_"

  number_char : Char → Bool
  number_char c = py.is_digit c || is c "."

  unit_char : Char → Bool
  unit_char c = is c "s" || is c "m" || is c "h" || is c "d"

  -- one token of the text that starts with `c`, and the text behind it
  unfoldable pub string_token : Char → String → Result (Token × String)
  string_token c s =
      let (buf, rest) = span (λ d. not (is d c)) s in
      if next_is (λ d. true) rest then ok (string buf, drop_one rest) else err condition_error

  -- a single s/m/h/d not followed by another identifier character
  unfoldable pub number_token : String → String → Result (Token × String)
  unfolding unit_char word_char first_char
  number_token num rest =
      if next_is unit_char rest && not (next_is word_char (drop_one rest))
      then ok (duration (num +s first_char rest), drop_one rest)
      else ok (number num, rest)

  unfoldable pub op_token : Char → String → Result (Token × String)
  op_token c s =
      if next_is (λ d. is d "=") s
      then elim (op_two c) [ none ↦ err condition_error | some o ↦ ok (op o, drop_one s) ]
      else elim (op_one c) [ none ↦ err condition_error | some o ↦ ok (op o, s) ]

  word : String × String → Result (Option Token × String)
  word (w, rest) = ok (some (word_token w), rest)

  number_of : String × String → Result (Option Token × String)
  number_of (num, rest) = found (number_token num rest)

  -- The body of the loop at the character `c` with `s` behind it; no token is white space.
  unfoldable pub token_at : Char → String → Result (Option Token × String)
  unfolding word_char number_char word number_of found
  token_at c s =
      if py.is_space c
      then ok (none, s)
      else if is_some (single c)
      then ok (single c, s)
      else if is c "=" || is c "!" || is c "<" || is c ">"
      then found (op_token c s)
      else if is c "'" || is c "\""
      then found (string_token c s)
      else if py.is_digit c
      then number_of (span number_char (String.◌∷◌ c s))
      else if is c "-" && next_is py.is_digit s
      then number_of (let more = span number_char s in (String.◌∷◌ c more.0, more.1))
      else if py.is_alpha c || is c "_"
      then word (span word_char (String.◌∷◌ c s))
      else err condition_error

  -- `while i < n`
  unfoldable pub tokenize_from : ℕ → String → Result (List Token)
  tokenize_from zero s = out_of_fuel
  tokenize_from (suc f) String.[] = ok []
  tokenize_from (suc f) (String.◌∷◌ c s) =
      token_at c s >>= (λ (t, rest). tokenize_from f rest >>= (λ ts. ok (add_token t ts)))

  unfoldable pub tokenize : String → Result (List Token)
  tokenize s = tokenize_from (suc (len s)) s
