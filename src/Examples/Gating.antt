-- ===== src/Examples/Gating.antt =====
-- Gates of a payment and of a transition.
use mathlib.Core.List.{Perm}
use stonefold.Prelude.{
  ℕ, pos, ◌≡◌, refl, ◌≢◌, String, true, false, none, some, List, [], ◌∷◌, map, split, ◌+s◌,
}
use stonefold.Values.{Value, nil, cons, empty, field, get, truthy}
use stonefold.Models.Enums.{Outcome, RetryClass, kind_eq}
use stonefold.Models.Records.{GateResult, GateOutcome, ReleaseContract}
use stonefold.Condition.Evaluate.{value, lookup_path, walk_path}
use stonefold.Gates.{CheckResult, cfg_get, shown_field, resolve_field, to_number, float_of}
use stonefold.Gates.Checks.{
  run_checks, run_named_check, turn, after_turn, check_hold_capable, reason_class,
}
use stonefold.Gates.Guards.{check_from_states, listed, any_equal, precondition}
use stonefold.Gates.Single.{value_limit}
use stonefold.Condition.Evaluate.Run.{py_eq}
use stonefold.Gates.Checks.Laws.{Holds, run_checks-Holds_declared}
use stonefold.Gates.Reads.{parse_reads, check_reads}
use stonefold.Gates.Counting.{int_value}
use stonefold.Gates.Engine.Contracts.{
  release_contract, is_approval, approval_spec, approvers_of, timeout_seconds,
}
use stonefold.Gates.Engine.{
  items_of, sort, insert, gate_table, run_one, is_active, run_gate, classified,
}
use stonefold.Gates.Engine.Order.{ByCost, costing, demanded, items_of-ByCost}
use stonefold.Gates.Engine.Evaluate.{
  Holding, evaluate, run_items, continue_with, conclude, concluded, contracts_of, with_rest,
}
use stonefold.Gates.Engine.Evaluate.Laws.{Through, evaluate-passes_all}
use stonefold.Gates.Engine.Evaluate.Holds.{evaluate-demands_each_hold}
use stonefold.Gates.Engine.Evaluate.Transitions.{evaluate-guards_transition}
use stonefold.Examples.Fixtures.{payment}
use stonefold.Examples.GateWorld.{
  gate_py, context, ticket, pass_result, shown, text_of_value, natural_part,
}

abbrev limited : List (String × Value)
limited =
    ("precondition", Value.list (cons (Value.str "sane") nil))
    ∷ (
      "valueLimit",
      Value.dict
          (field "field" (Value.str "data.amount") (field "max" (Value.int (pos 1000)) empty)),
    )
    ∷ []

abbrev passing : GateOutcome
passing = record {
  outcome = Outcome.pass;
  results = pass_result "precondition" ∷ pass_result "valueLimit" ∷ pass_result "precondition" ∷ [];
  reason = "";
  approval = none;
  releases = [];
}

all_pass : evaluate gate_py ticket none limited 0 ≡ (value passing, 1)
unfolding evaluate run_items items_of sort kind_eq insert gate_table continue_with run_one is_active
    cfg_get get run_gate check_from_states listed classified any_equal py_eq precondition run_checks
    run_named_check turn after_turn value_limit conclude shown_field resolve_field lookup_path
    walk_path to_number float_of natural_part shown text_of_value concluded split
all_pass = refl

evaluate-passes_all_example :
    Through gate_py ticket
      (items_of gate_py ticket ticket.request.resolved limited)
      0
      passing.results
      []
      1
evaluate-passes_all_example =
    evaluate-passes_all gate_py ticket none limited 0 passing 1 all_pass refl

evaluate-guards_transition_example :
    (current : Value) × (get ticket.request.env.resource "currentState" ≡ some current)
    × (any_equal gate_py current (map Value.str ("open" ∷ [])) ≡ true)
evaluate-guards_transition_example =
    evaluate-guards_transition gate_py ticket none limited 0 passing 1 "open" [] refl refl all_pass
      refl

items_of-ByCost_example :
    Perm (items_of gate_py context payment limited) (demanded payment limited)
    × ByCost (items_of gate_py context payment limited)
    × ((c : ℕ)
        → costing c (items_of gate_py context payment limited)
          ≡ costing c (demanded payment limited))
items_of-ByCost_example = items_of-ByCost gate_py context payment limited

abbrev two_checks : List Value
two_checks = Value.str "review" ∷ Value.str "sane" ∷ []

checks_hold : (run_checks gate_py context "precondition" two_checks none 0).0.outcome ≡ Outcome.hold
unfolding run_checks run_named_check turn after_turn shown text_of_value check_hold_capable
    reason_class
checks_hold = refl

run_checks-Holds_declared_example :
    (c : CheckResult) × Holds gate_py context
      (run_checks gate_py context "precondition" two_checks none 0).0.source
      c
    × ((run_checks gate_py context "precondition" two_checks none 0).0.code ≡ c.code)
run_checks-Holds_declared_example =
    run_checks-Holds_declared gate_py context "precondition" two_checks 0 checks_hold

abbrev held_gates : List (String × Value)
held_gates =
    ("requireApproval", Value.dict (field "quorum" (Value.int (pos 2)) empty))
    ∷ (
      "precondition",
      Value.dict (
          field "checks" (Value.list (cons (Value.str "review") nil))
            (field "resolvers" (Value.str "auditor") empty)),
    )
    ∷ []

abbrev review_result : GateResult
review_result = record (pass_result "precondition") {
  outcome = Outcome.hold;
  reason = "review: REVIEW";
  code = "REVIEW";
  source = "review";
  retry_class = some RetryClass.escalate;
}

abbrev approval_result : GateResult
approval_result = record (pass_result "requireApproval") {
  outcome = Outcome.hold;
  reason = "human approval required";
}

abbrev plain_contract : ReleaseContract
plain_contract = record {
  gate = "precondition";
  cause = "precondition:review";
  quorum = 1;
  dual_auth = false;
  distinct_from_actor = false;
  approvers = "auditor" ∷ [];
  timeout = none;
  on_timeout = "deny";
  reason_code = "REVIEW";
  evidence = none;
  satisfied_by = [];
}

abbrev suspended : GateOutcome
suspended = record {
  outcome = Outcome.hold;
  results = review_result ∷ approval_result ∷ [];
  reason = "gate:precondition";
  approval = some (record {
    quorum = 1;
    dual_auth = false;
    distinct_from_actor = false;
    approvers = [];
    timeout = none;
    on_timeout = "deny";
  });
  releases =
      plain_contract
      ∷ record plain_contract {
        gate = "requireApproval";
        cause = "requireApproval";
        quorum = 2;
        approvers = [];
        reason_code = "";
      }
      ∷ [];
}

both_hold : evaluate gate_py context none held_gates 0 ≡ (value suspended, 1)
unfolding evaluate run_items items_of sort kind_eq insert gate_table continue_with run_one is_active
    cfg_get get run_gate classified precondition run_checks run_named_check turn after_turn conclude
    shown text_of_value concluded parse_reads check_reads listed check_hold_capable contracts_of
    release_contract is_approval with_rest truthy approval_spec int_value ◌+s◌ reason_class
    approvers_of timeout_seconds
both_hold = refl

evaluate-demands_each_hold_example :
    (hs : List Holding) × Through gate_py context
      (items_of gate_py context context.request.resolved held_gates)
      0
      suspended.results
      hs
      1
    × (map (λ c. c.gate) suspended.releases ≡ map (λ h. h.name) hs)
    × (hs ≢ [])
evaluate-demands_each_hold_example =
    evaluate-demands_each_hold gate_py context none held_gates 0 suspended 1 both_hold refl
