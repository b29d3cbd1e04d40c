-- ===== src/Examples/Matching.antt =====
-- A payment that is matched to an order, and the gate sets of a policy.
use stonefold.Prelude.{pos, ◌≡◌, refl, String, some, [], ◌∷◌, split, strip_prefix, ◌+s◌}
use stonefold.Values.{Value, nil, cons, empty, field, get, truthy}
use stonefold.Models.Enums.{kind_value}
use stonefold.Models.Records.{GateResult, Capability}
use stonefold.Failure.{should_fail_closed}
use stonefold.Condition.Evaluate.{value, lookup_path, walk_path}
use stonefold.Gates.{cfg_get, resolve_field, to_number}
use stonefold.Gates.Guards.{is_null}
use stonefold.Gates.Match.Record.{
  plan_of, check_clauses, check_clause, check_tolerance, lookup_field, clause_caught,
  tolerance_verdict, or_rest,
}
use stonefold.Gates.Match.Decide.{require_match, match_list, select, decide_on}
use stonefold.Gates.Match.{parse_clauses, parse_clause, parse_within}
use stonefold.Gates.Match.Decide.Laws.{MatchedOne, require_match-matches_one}
use stonefold.Compiler.Keys.{
  GateSets, find_gate, find_set, gates_for, gate_keys_for, merge_keys, merge, set_last, known_keys,
}
use stonefold.Compiler.Keys.Laws.{governing, by_specificity, find-gates_for}
use stonefold.Obligation.{consumable}
use stonefold.Obligation
use stonefold.Pipeline.Claims.Laws.{IsReadable}
use stonefold.Gates.Match.Decide.Evidence.{require_match-IsReadable}
use stonefold.Examples.Calls.{deps}
use stonefold.Examples.Fixtures.{payment}
use stonefold.Examples.GateWorld.{
  gate_py, order, context, pass_result, shown, text_of_value, natural_part,
}

abbrev matching : String → Value
matching consume = Value.dict (
    field "registry" (Value.str "orders") (
      field "consume" (Value.str consume) (
        field "match"
          (Value.list (
            cons
              (Value.dict (
                field "field" (Value.str "obligation.amount") (
                  field "matches" (Value.str "data.amount")
                    (field "within" (Value.int (pos 5)) empty))))
              nil))
          empty)))

abbrev matched : GateResult
matched = record (pass_result "requireMatch") {
  evidence = some (plan_of "orders" order "none" Capability.window);
}

abbrev entitling : GateResult
entitling = record matched {
  evidence = some (plan_of "orders" order "obligation.lines" Capability.window);
}

match_passes : require_match gate_py context (matching "none") 0 ≡ (value matched, 1)
unfolding require_match cfg_get get truthy shown text_of_value match_list parse_clauses parse_clause
    strip_prefix parse_within natural_part select decide_on check_clauses check_clause
    check_tolerance lookup_field split to_number resolve_field lookup_path walk_path clause_caught
    tolerance_verdict plan_of is_null or_rest
match_passes = refl

require_match-matches_one_example : MatchedOne gate_py context (matching "none") 0 matched 1
unfolding should_fail_closed
require_match-matches_one_example =
    require_match-matches_one gate_py context (matching "none") 0 matched 1 refl match_passes refl

entitles :
    Obligation.plan_of entitling
    ≡ some (plan_of "orders" order "obligation.lines" Capability.window)
unfolding Obligation.plan_of consumable plan_of get truthy
entitles = refl

consuming : require_match gate_py context (matching "obligation.lines") 0 ≡ (value entitling, 1)
unfolding require_match cfg_get get truthy shown text_of_value match_list parse_clauses parse_clause
    strip_prefix parse_within natural_part select decide_on check_clauses check_clause
    check_tolerance lookup_field split to_number resolve_field lookup_path walk_path clause_caught
    tolerance_verdict plan_of is_null or_rest
consuming = refl

require_match-IsReadable_example :
    IsReadable deps (plan_of "orders" order "obligation.lines" Capability.window)
require_match-IsReadable_example =
    require_match-IsReadable deps gate_py context (matching "obligation.lines") 0 entitling 1
      (plan_of "orders" order "obligation.lines" Capability.window) consuming entitles

abbrev gate_sets : GateSets
gate_sets =
    ("effect", ("valueLimit", Value.int (pos 1)) ∷ ("quota", Value.int (pos 2)) ∷ [])
    ∷ ("Payment.send", ("valueLimit", Value.int (pos 3)) ∷ [])
    ∷ []

find-gates_for_example :
    find_gate (gates_for gate_sets payment) "quota"
    ≡ governing gate_sets (by_specificity payment) "quota"
find-gates_for_example = find-gates_for gate_sets payment "quota"

-- The key of the action governs, and the gates of its kind are added.
limit_governs : find_gate (gates_for gate_sets payment) "valueLimit" ≡ some (Value.int (pos 3))
unfolding find_gate gates_for gate_keys_for merge_keys merge set_last known_keys find_set kind_value
    ◌+s◌
limit_governs = refl
