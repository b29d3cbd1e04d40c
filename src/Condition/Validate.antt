-- ===== src/Condition/Validate.antt =====
-- stonefold_core/condition.py: the static validation of a condition. A problem keeps what its
-- message names.
pub mod Laws
use stonefold.Prelude.{
  String, Bool, true, false, not, Option, none, some, List, [], ◌∷◌, ◌++◌, if◌then◌else◌, contains,
}
use stonefold.Condition.{
  Operand, path, literal, func, Operands, no_args, arg, Expr, both, either, negate, compare_to,
  in_expr, exists, condition_error, value_error, Result, ok, err, out_of_fuel,
}
use stonefold.Condition.Tokens.{PyChars}
use stonefold.Condition.Parser.{parse}
use stonefold.Condition.Evaluate.{namespace_names}

-- FUNCTIONS
abbrev pub function_names : List String
function_names = "count" ∷ "now" ∷ "window" ∷ "spend" ∷ []

pub data Problem : Type 0 where
  unknown_root : String → List String → Problem
  unknown_function : String → Problem
  unparsed : String → Problem

module _ (namespaces : List String) where
  unfoldable pub check_path : String → List String → List Problem
  check_path p [] = []
  check_path p (q ∷ qs) = if contains namespaces p then [] else unknown_root p (q ∷ qs) ∷ []

  unfoldable pub check_name : String → List Problem
  check_name name = if contains function_names name then [] else unknown_function name ∷ []

  unfoldable mutual
    -- `_check_operand`
    pub check_operand : Operand → List Problem
    check_operand (path p ps) = check_path p ps
    check_operand (literal l) = []
    check_operand (func name os) = check_name name ++ check_args os

    pub check_args : Operands → List Problem
    check_args no_args = []
    check_args (arg o os) = check_operand o ++ check_args os

  -- `_walk`
  unfoldable pub check : Expr → List Problem
  check (both l r) = check l ++ check r
  check (either l r) = check l ++ check r
  check (negate e) = check e
  check (compare_to a o b) = check_operand a ++ check_operand b
  check (in_expr a b negated) = check_operand a ++ check_operand b
  check (exists p ps) = check_path p ps

-- `validate`, with the extra namespaces
unfoldable pub validate : List String → Expr → List Problem
validate extra e = check (namespace_names ++ extra) e

-- `parse_and_validate`; `none` is the ValueError of a number that Python does not read, which is
-- no ConditionError and is not caught
unfoldable pub parse_and_validate : PyChars → List String → String → Option (List Problem)
parse_and_validate py extra src = elim (parse py src) [
  | ok e ↦ some (validate extra e)
  | err fault ↦ elim fault [ condition_error ↦ some (unparsed src ∷ []) | value_error ↦ none ]
  | out_of_fuel ↦ none
]
