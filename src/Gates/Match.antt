-- ===== src/Gates/Match.antt =====
-- stonefold_gates/gates.py: the clauses of requireMatch, parsed. A ValueError is `runtime` here.
pub mod Record
pub mod Decide
use Prim.Native.Char.{Char}
use stonefold.Prelude.{
  ℕ, ℤ, pos, String, Bool, true, false, not, Option, none, some, List, [], ◌∷◌, ◌++◌, if◌then◌else◌,
  str_eq, ◌+s◌, contains, strip_prefix, ends_with, any, ◌&&◌,
}
use stonefold.Values.{Value, Items, nil, cons, Fields, empty, field, get, truthy, to_list}
use stonefold.Models.Enums.{Outcome, RetryClass}
use stonefold.Models.Records.{GateResult, Capability}
use stonefold.Condition.{
  Operand, path, literal, func, Operands, no_args, arg, Expr, both, either, negate, compare_to,
  in_expr, exists, CompareOp, Result,
}
use stonefold.Condition.Parser.{parse}
use stonefold.Condition.Evaluate.{Eval, value, raise, runtime, foreign, ◌>>=◌, namespace_names}
use stonefold.Gates.{GatePy, cfg_get}
use stonefold.Gates.Guards.{listed}

-- `Path`: its first part and the others
abbrev pub Parts : Type 0
Parts = String × List String

-- `_operand_paths`
unfoldable mutual
  pub operand_paths : Operand → List Parts
  operand_paths (path p ps) = (p, ps) ∷ []
  operand_paths (literal l) = []
  operand_paths (func name os) = args_paths os

  pub args_paths : Operands → List Parts
  args_paths no_args = []
  args_paths (arg o os) = operand_paths o ++ args_paths os

-- `_expr_paths`: the stack yields the right side of a connective first
unfoldable pub expr_paths : Expr → List Parts
expr_paths (both l r) = expr_paths r ++ expr_paths l
expr_paths (either l r) = expr_paths r ++ expr_paths l
expr_paths (negate e) = expr_paths e
expr_paths (compare_to a o b) = operand_paths a ++ operand_paths b
expr_paths (in_expr a b negated) = operand_paths a ++ operand_paths b
expr_paths (exists p ps) = (p, ps) ∷ []

-- ".".join(parts)
unfoldable pub joined : List String → String
joined [] = ""
joined (p ∷ []) = p
joined (p ∷ q ∷ ps) = p +s "." +s joined (q ∷ ps)

-- the field of an obligation that an operand names, for `_is_obligation_path`
unfoldable pub obligation_field : Operand → Option String
unfolding joined
obligation_field (path p (q ∷ qs)) = if str_eq p "obligation" then some (joined (q ∷ qs)) else none
obligation_field _ = none

-- `_refs_obligation`
unfoldable pub refs_obligation : Operand → Bool
unfolding operand_paths
refs_obligation o = any (λ (p, ps). str_eq p "obligation") (operand_paths o)

-- `_intent_fields`
unfoldable pub intent_fields : List Parts → List String
unfolding joined
intent_fields [] = []
intent_fields ((p, []) ∷ paths) = intent_fields paths
intent_fields ((p, q ∷ qs) ∷ paths) =
    let rest = intent_fields paths in
    if contains namespace_names p then joined (p ∷ q ∷ qs) ∷ rest else rest

-- `_StringClause` and `_ToleranceClause`
pub record StringClause : Type 0 where
  pub expr : Expr
  pub eq : Option (String × Operand)
  pub intent : List String
  pub provenance : Bool

pub record ToleranceClause : Type 0 where
  pub path : String
  pub matches : String
  pub pct : Option ℕ
  pub abs : Option ℕ
  pub provenance : Bool

pub data Clause : Type 0 where
  string : StringClause → Clause
  tolerance : ToleranceClause → Clause

unless_obligation : String → Operand → Option (String × Operand)
unfolding refs_obligation
unless_obligation name other = if refs_obligation other then none else some (name, other)

one_side : Option String → Option String → Operand → Operand → Option (String × Operand)
unfolding unless_obligation
one_side (some f) none a b = unless_obligation f b
one_side none (some f) a b = unless_obligation f a
one_side _ _ a b = none

-- `eq` of a clause: the field of the record and the intent's side
unfoldable pub selector_of : Expr → Option (String × Operand)
unfolding one_side obligation_field
selector_of (compare_to a CompareOp.eq b) = one_side (obligation_field a) (obligation_field b) a b
selector_of _ = none

drop_last : String → String
drop_last String.[] = String.[]
drop_last (String.◌∷◌ c String.[]) = String.[]
drop_last (String.◌∷◌ c (String.◌∷◌ d s)) = String.◌∷◌ c (drop_last (String.◌∷◌ d s))

or_value_error : {A : Type 0} → Option A → Eval A
or_value_error none = raise runtime
or_value_error (some a) = value a

-- `_parse_within`: a percentage, or an absolute number
unfoldable pub parse_within : GatePy → Option Value → Eval (Option ℕ × Option ℕ)
unfolding drop_last or_value_error
parse_within py (some (Value.str s)) =
    if ends_with s "%"
    then or_value_error (py.ops.float_of_text (drop_last s)) >>= (λ x. value (some x, none))
    else raise runtime
parse_within py (some (Value.int (pos n))) = elim (py.ops.float_of_int (pos n)) [
  | none ↦ raise foreign
  | some x ↦ value (none, some x)
]
parse_within py (some (Value.float x)) =
    if py.ops.float_le py.zero x then value (none, some x) else raise runtime
parse_within py _ = raise runtime

text_clause : Bool → Result Expr → Eval Clause
unfolding selector_of intent_fields expr_paths
text_clause provenance (Result.ok e) = value (
    string (record {
      expr = e;
      eq = selector_of e;
      intent = intent_fields (expr_paths e);
      provenance = provenance;
    }))
text_clause provenance _ = raise runtime

record_path : Option Value → Eval String
unfolding or_value_error
record_path (some (Value.str s)) = or_value_error (strip_prefix s "obligation.")
record_path _ = raise runtime

matches_path : Option Value → Eval String
matches_path (some (Value.str s)) = if str_eq s "" then raise runtime else value s
matches_path _ = raise runtime

-- `_parse_clause`
unfoldable pub parse_clause : GatePy → Bool → Value → Eval Clause
unfolding text_clause record_path matches_path
parse_clause py provenance (Value.str s) = text_clause provenance (parse py.chars s)
parse_clause py provenance (Value.dict d) = record_path (get d "field") >>= (λ f.
    matches_path (get d "matches") >>= (λ m. parse_within py (get d "within") >>= (λ (pct, abs).
      value (
        tolerance
          (record { path = f; matches = m; pct = pct; abs = abs; provenance = provenance })))))
parse_clause py provenance v = raise runtime

unfoldable pub parse_clauses : GatePy → Bool → List Value → Eval (List Clause)
parse_clauses py provenance [] = value []
parse_clauses py provenance (v ∷ vs) =
    parse_clause py provenance v
    >>= (λ c. parse_clauses py provenance vs >>= (λ cs. value (c ∷ cs)))
