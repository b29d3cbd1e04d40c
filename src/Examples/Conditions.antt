-- ===== src/Examples/Conditions.antt =====
-- Conditions that are read, written, validated and evaluated, over plain ASCII.
use Prim.Native.Char.{Char, code}
use stonefold.Prelude.{
  ℕ, ◌+◌, ◌*◌, ◌-◌, ℤ, pos, ◌≡◌, refl, ◌↔◌, ◌⊎◌, String, Bool, true, false, Option, none, some, [],
  ◌∷◌, ◌++◌, ◌&&◌, ◌||◌, leb, nat_eq, if◌then◌else◌, str_eq, arith,
}
use stonefold.Values.{Value, Fields, empty, field, get}
use stonefold.Condition.{
  Literal, Literals, path, literal, Expr, both, either, negate, compare_to, in_expr, exists,
  CompareOp, Fault, value_error, ok, err,
}
use stonefold.Condition.Tokens.{
  PyChars, tokenize, tokenize_from, token_at, len, single, span, op_two, op_one, word_token,
  number_token, op_token, next_is, drop_one, string_token,
}
use stonefold.Condition.Parser.{
  parse, parse_tokens, or_expr, or_loop, and_expr, and_loop, unary, comparison, compare_rest,
  collection, operand, items, more_items, path_rest, number_literal, has_dot, item_of, op_at,
  expect, expect_ident, is_kw, at_lparen, at_lbrack, at_rbrack, at_comma, at_dot, at_end,
}
use stonefold.Condition.Parser.Total.{parse-ends}
use stonefold.Condition.Printer.{
  any_expr, print_expr, ExprSpelled, OperandSpelled, LiteralSpelled, ItemsSpelled,
}
use stonefold.Condition.Printer.RoundTrip.{parse_tokens-print}
use stonefold.Condition.Evaluate.{
  raise, missing, PyOps, EvalContext, lookup_path, walk_path, namespace_names, resolve,
  resolve_path,
}
use stonefold.Condition.Evaluate.Run.{evaluate}
use stonefold.Condition.Validate.{validate}
use stonefold.Condition.Validate.Laws.{validate-IsKnown, IsKnown}

abbrev between : ℕ → ℕ → Char → Bool
between lo hi c = leb lo (code c) && leb (code c) hi

abbrev digit : Char → Bool
digit = between 48 57

abbrev letter : Char → Bool
letter c = between 65 90 c || between 97 122 c

digits : ℕ → String → Option ℤ
digits n String.[] = some (pos n)
digits n (String.◌∷◌ c s) =
    let rest = digits (n * 10 + (code c - 48)) s in if digit c then rest else none

abbrev ascii : PyChars
ascii = record {
  is_space = λ c. nat_eq (code c) 32;
  is_digit = digit;
  is_alpha = letter;
  is_alnum = λ c. letter c || digit c;
  int_of = digits 0;
  float_of = λ s. if str_eq s "1.5" then some 7 else none;
}

-- data.amount > 100 and not resource.tier in [gold, 'new'] or exists context.note
abbrev guarded : Expr
guarded =
    either
      (both
        (compare_to (path "data" ("amount" ∷ [])) CompareOp.gt (literal (Literal.int (pos 100))))
        (negate (
          in_expr (path "resource" ("tier" ∷ []))
            (literal (
              Literal.list (
                Literals.cons (Literal.text "gold")
                  (Literals.cons (Literal.text "new") Literals.nil))))
            false)))
      (exists "context" ("note" ∷ []))

abbrev source : String
source = "data.amount > 100 and not resource.tier in [gold, 'new'] or exists context.note"

reads_source : parse ascii source ≡ ok guarded
unfolding parse tokenize tokenize_from token_at len single span op_two op_one word_token
    number_token op_token next_is drop_one string_token parse_tokens or_expr or_loop and_expr
    and_loop unary comparison compare_rest collection operand items more_items path_rest
    number_literal has_dot item_of op_at expect expect_ident is_kw at_lparen at_lbrack at_rbrack
    at_comma at_dot at_end digits
reads_source = refl

-- A number with two points is a ValueError, which is no ConditionError.
two_points : parse ascii "data.x == 1.2.3" ≡ err value_error
unfolding parse tokenize tokenize_from token_at len single span op_two op_one word_token
    number_token op_token next_is drop_one parse_tokens or_expr and_expr unary comparison
    compare_rest operand path_rest number_literal has_dot op_at expect_ident is_kw at_lparen at_dot
two_points = refl

alnum : (c : Char) → letter c ≡ true → (letter c || digit c) ≡ true
alnum c h = ground (arith, h)

parse-ends_example :
    ((e : Expr) × (parse ascii source ≡ ok e)) ⊎ ((f : Fault) × (parse ascii source ≡ err f))
parse-ends_example = parse-ends ascii source alnum

abbrev spell : Literal → String
spell l = "100"

spelled : ExprSpelled spell ascii guarded
unfolding ExprSpelled OperandSpelled LiteralSpelled ItemsSpelled number_literal has_dot digits
spelled = (((tt, refl), (tt, (tt, (tt, tt)))), tt)

parse_tokens-print_example : parse_tokens ascii (print_expr spell any_expr guarded []) ≡ ok guarded
parse_tokens-print_example = parse_tokens-print spell ascii guarded spelled

abbrev amount : Fields
amount = field "amount" (Value.int (pos 150)) empty

abbrev few : EvalContext
few = record {
  namespaces = λ ns. if str_eq ns "data" then some amount else none;
  functions = λ name. none;
}

-- the same with one more field and one more namespace
abbrev amount_and_fee : Fields
amount_and_fee = field "fee" (Value.int (pos 2)) amount

abbrev many : EvalContext
many = record {
  namespaces = λ ns.
      if str_eq ns "data"
      then some amount_and_fee
      else if str_eq ns "context"
      then some empty
      else none;
  functions = λ name. none;
}

abbrev ops : PyOps
ops = record {
  float_of_int = λ n. elim n [ pos k ↦ some k | other ↦ none ];
  float_of_text = λ s. none;
  float_eq = nat_eq;
  float_lt = λ a b. leb (a + 1) b;
  float_le = leb;
  int_eq_float = λ n x. false;
  text_of = λ v. "";
  search = λ p s. none;
  int_of_text = λ s. none;
  strip = λ s. s;
  minute_of = λ t. t;
}

abbrev large : Expr
large = compare_to (path "data" ("amount" ∷ [])) CompareOp.gt (literal (Literal.int (pos 100)))

-- A missing value ends the evaluation by an error.
absent :
    evaluate ops few
      (compare_to (path "data" ("fee" ∷ [])) CompareOp.gt (literal (Literal.int (pos 1))))
    ≡ raise missing
unfolding evaluate resolve resolve_path lookup_path walk_path get
absent = refl

validate-IsKnown_example :
    (validate ("obligation" ∷ []) guarded ≡ [])
    ↔ IsKnown (namespace_names ++ "obligation" ∷ []) guarded
validate-IsKnown_example = validate-IsKnown ("obligation" ∷ []) guarded
