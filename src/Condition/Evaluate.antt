-- ===== src/Condition/Evaluate.antt =====
-- stonefold_core/condition.py: the run-time evaluation of a condition.
pub mod Run
pub mod Extends
use Prim.Native.Char.{Char}
use stonefold.Prelude.{
  ℕ, ◌+◌, ◌*◌, ℤ, pos, negsuc, String, Bool, true, false, not, Option, none, some, List, [], ◌∷◌,
  ◌&&◌, ◌||◌, if◌then◌else◌, str_eq, nat_eq, leb, starts_with, contains, is_some,
}
use stonefold.Values.{
  Value, null, bool, int, float, str, instant, list, dict, Items, nil, cons, Fields, empty, field,
  get,
}
use stonefold.Condition.{
  Literal, Literals, Operand, path, literal, func, Operands, no_args, arg, Expr, both, either,
  negate, compare_to, in_expr, exists, CompareOp,
}
use stonefold.Condition.Tokens.{is}

-- MissingValueError, any other ConditionRuntimeError, and any exception that is neither
pub data EvalError : Type 0 where
  missing runtime foreign : EvalError

pub data Eval (A : Type 0) : Type 0 where
  value : A → Eval A
  raise : EvalError → Eval A

infixl 5 ◌>>=◌
abbrev pub ◌>>=◌ : {A B : Type 0} → Eval A → (A → Eval B) → Eval B
value a >>= f = f a
raise e >>= f = raise e

-- A value of the gateway, or a WindowRange of minutes since midnight.
pub data Thing : Type 0 where
  plain : Value → Thing
  range : ℤ → ℤ → Thing

-- What the code takes from Python: float() of an integer, which may overflow, and of a text, the
-- comparisons of floats, str(), re.search, int() and strip() of a text, the minute of the day.
pub record PyOps : Type 0 where
  pub float_of_int : ℤ → Option ℕ
  pub float_of_text : String → Option ℕ
  pub float_eq : ℕ → ℕ → Bool
  pub float_lt : ℕ → ℕ → Bool
  pub float_le : ℕ → ℕ → Bool
  pub int_eq_float : ℤ → ℕ → Bool
  pub text_of : Thing → String
  pub search : String → String → Option Bool
  pub int_of_text : String → Option ℤ
  pub strip : String → String
  pub minute_of : ℕ → ℕ

-- NAMESPACES, FUNCTIONS
abbrev pub namespace_names : List String
namespace_names = "action" ∷ "data" ∷ "resource" ∷ "actor" ∷ "context" ∷ []

-- `EvalContext`
pub record EvalContext : Type 0 where
  pub namespaces : String → Option Fields
  pub functions : String → Option (List Thing → Eval Thing)

-- `for p in parts[1:]`
unfoldable pub walk_path : Value → List String → Eval Value
walk_path v [] = value v
walk_path (dict d) (p ∷ ps) = elim (get d p) [ none ↦ raise missing | some w ↦ walk_path w ps ]
walk_path v (p ∷ ps) = raise missing

unfoldable pub lookup_path : EvalContext → String → List String → Eval Value
lookup_path ctx ns ps = elim (ctx.namespaces ns) [
  | none ↦ raise missing
  | some d ↦ walk_path (dict d) ps
]

unfoldable pub has_path : EvalContext → String → List String → Eval Bool
has_path ctx ns ps = elim (lookup_path ctx ns ps) [
  | value v ↦ value true
  | raise e ↦ elim e [ missing ↦ value false | other ↦ raise other ]
]

unfoldable pub call_function : EvalContext → String → List Thing → Eval Thing
call_function ctx name args = elim (ctx.functions name) [ none ↦ raise missing | some f ↦ f args ]

-- `_literal_value`
unfoldable mutual
  pub literal_value : Literal → Value
  literal_value (Literal.text s) = str s
  literal_value (Literal.int n) = int n
  literal_value (Literal.float x) = float x
  literal_value (Literal.bool b) = bool b
  literal_value (Literal.list ls) = list (literal_values ls)

  pub literal_values : Literals → Items
  literal_values Literals.nil = nil
  literal_values (Literals.cons l ls) = cons (literal_value l) (literal_values ls)

-- `_resolve`: one part that names no namespace is a text
unfoldable pub resolve_path : EvalContext → String → List String → Eval Thing
resolve_path ctx p [] =
    if contains namespace_names p
    then lookup_path ctx p [] >>= (λ v. value (plain v))
    else value (plain (str p))
resolve_path ctx p (q ∷ qs) = lookup_path ctx p (q ∷ qs) >>= (λ v. value (plain v))

unfoldable mutual
  pub resolve : EvalContext → Operand → Eval Thing
  resolve ctx (literal l) = value (plain (literal_value l))
  resolve ctx (path p ps) = resolve_path ctx p ps
  resolve ctx (func name args) = resolve_args ctx args >>= (λ vs. call_function ctx name vs)

  pub resolve_args : EvalContext → Operands → Eval (List Thing)
  resolve_args ctx no_args = value []
  resolve_args ctx (arg o os) =
      resolve ctx o >>= (λ v. resolve_args ctx os >>= (λ vs. value (v ∷ vs)))

unfoldable pub int_eq : ℤ → ℤ → Bool
int_eq (pos n) (pos m) = nat_eq n m
int_eq (negsuc n) (negsuc m) = nat_eq n m
int_eq _ _ = false

unfoldable pub int_le : ℤ → ℤ → Bool
int_le (pos n) (pos m) = leb n m
int_le (negsuc n) (negsuc m) = leb m n
int_le (negsuc n) (pos m) = true
int_le (pos n) (negsuc m) = false

unfoldable pub bool_int : Bool → ℤ
bool_int true = pos 1
bool_int false = pos 0

-- the part of a text up to the first `c`, whether there is one, and the part behind it
unfoldable pub partition : Char → String → String × Bool × String
partition c String.[] = (String.[], false, String.[])
partition c (String.◌∷◌ d s) =
    let (before, found, behind) = partition c s in
    if is d c then (String.[], true, s) else (String.◌∷◌ d before, found, behind)

-- t in s
unfoldable pub text_in : String → String → Bool
text_in t String.[] = starts_with String.[] t
text_in t (String.◌∷◌ c s) = starts_with (String.◌∷◌ c s) t || text_in t s
