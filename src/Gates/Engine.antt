-- ===== src/Gates/Engine.antt =====
-- stonefold_gates/engine.py: the table of gates, and one gate of it with its `when:`.
pub mod Evaluate
pub mod Contracts
pub mod Revalidate
pub mod Order
pub mod Context
use stonefold.Prelude.{
  ℕ, ◌+◌, String, Bool, true, false, not, Option, none, some, List, [], ◌∷◌, if◌then◌else◌, str_eq,
  is_some, ltb, leb,
}
use stonefold.Values.{Value, Items, nil, cons, Fields, empty, field, get}
use stonefold.Models.Enums.{Outcome, RetryClass, Kind, kind_eq}
use stonefold.Models.Records.{GateResult, ResolvedAction}
use stonefold.Reasons.{gate_class}
use stonefold.Condition.{Expr, Result}
use stonefold.Condition.Parser.{parse}
use stonefold.Condition.Evaluate.{Eval, value, raise, foreign, ◌>>=◌, EvalContext}
use stonefold.Condition.Evaluate.Run.{evaluate}
use stonefold.Gates.{GatePy, GateContext, Answer, passed, failed, held, cfg_get}
use stonefold.Gates.Guards.{check_from_states, precondition, emission_control}
use stonefold.Gates.Single.{value_limit, content_check, window_gate, require_explanation}
use stonefold.Gates.Sets.{membership, disclosure}
use stonefold.Gates.Counting.{count_gate, quantity_cap, spend_limit}
use stonefold.Gates.Match.Decide.{require_match}

abbrev pub transition_guard : String
transition_guard = "_transition_from"

-- an entry of `_GATES`
pub record Gate (W : Type 0) : Type 0 where
  pub cost : ℕ
  pub run : Value → W → Answer W

find_gate : {W : Type 0} → List (String × Gate W) → String → Option (Gate W)
find_gate [] name = none
find_gate ((n, g) ∷ rest) name =
    let later = find_gate rest name in if str_eq n name then some g else later

-- a gate to run, with its configuration
pub record Item : Type 0 where
  pub cost : ℕ
  pub name : String
  pub cfg : Value

unfoldable pub insert : Item → List Item → List Item
insert x [] = x ∷ []
insert x (y ∷ ys) = let rest = insert x ys in if leb x.cost y.cost then x ∷ y ∷ ys else y ∷ rest

-- items.sort(key=cost), which is stable
unfoldable pub sort : List Item → List Item
sort [] = []
sort (x ∷ xs) = insert x (sort xs)

unfoldable pub texts : List String → Items
texts [] = nil
texts (s ∷ ss) = cons (Value.str s) (texts ss)

unfoldable pub has_any : List String → Bool
has_any [] = false
has_any (s ∷ ss) = true

unfoldable pub guard_item : List String → Item
unfolding texts
guard_item states = record {
  cost = 0;
  name = transition_guard;
  cfg = Value.dict (field "from" (Value.list (texts states)) empty);
}

unfoldable pub with_guard : ResolvedAction → List Item → List Item
unfolding has_any guard_item
with_guard a items =
    if kind_eq a.kind Kind.transition
    then (if has_any a.from_states then guard_item a.from_states ∷ items else items)
    else items

eval_when : GatePy → EvalContext → Value → Eval Bool
eval_when py ctx (Value.str src) = elim (parse py.chars src) [
  | Result.ok e ↦ evaluate py.ops ctx e
  | Result.err e ↦ raise foreign
  | Result.out_of_fuel ↦ raise foreign
]
eval_when py ctx v = raise foreign

-- whether a gate is active; a gate without `when` is
unfoldable pub is_active : GatePy → EvalContext → Value → Eval Bool
unfolding eval_when
is_active py ctx cfg = elim (cfg_get cfg "when") [ none ↦ value true | some v ↦ eval_when py ctx v ]

-- Every FAIL carries a retry class.
unfoldable pub classified : GateResult → GateResult
classified r = elim r.outcome [
  | Outcome.fail ↦ elim r.retry_class [
    | some cls ↦ r
    | none ↦ record r { retry_class = some (gate_class r.gate) }
  ]
  | Outcome.pass ↦ r
  | Outcome.hold ↦ r
]

condition_error : String → GateResult
condition_error name = record (failed name "fail-closed: condition error") {
  retry_class = some RetryClass.terminal;
}

pure_gate : {W : Type 0} → ℕ → (Value → Eval GateResult) → Gate W
pure_gate cost f = record { cost = cost; run = λ cfg w. (f cfg, w) }

answering : {W : Type 0} → ℕ → (Value → W → Answer W) → Gate W
answering cost f = record { cost = cost; run = f }

counting : {W : Type 0} → ℕ → (Value → W → GateResult × W) → Gate W
counting cost f = record { cost = cost; run = λ cfg w. let (r, w') = f cfg w in (value r, w') }

module _ {W : Type 0} (py : GatePy) (ctx : GateContext W) where
  -- `_GATES`
  unfoldable pub gate_table : List (String × Gate W)
  unfolding pure_gate answering counting
  gate_table =
      ("valueLimit", pure_gate 10 (value_limit py ctx))
      ∷ ("requireExplanation", pure_gate 10 (λ cfg. value (require_explanation py ctx cfg)))
      ∷ ("window", pure_gate 10 (window_gate py ctx))
      ∷ ("allowlist", pure_gate 15 (membership py ctx false))
      ∷ ("denylist", pure_gate 15 (membership py ctx true))
      ∷ ("precondition", answering 20 (precondition py ctx))
      ∷ ("emissionControl", answering 20 (emission_control py ctx))
      ∷ ("requireMatch", answering 20 (require_match py ctx))
      ∷ ("disclosure", pure_gate 20 (disclosure py ctx))
      ∷ ("rate", counting 30 (count_gate py ctx "rate"))
      ∷ ("quota", counting 30 (count_gate py ctx "quota"))
      ∷ ("quantityCap", counting 30 (quantity_cap py ctx))
      ∷ ("spendLimit", counting 30 (spend_limit py ctx))
      ∷ ("contentCheck", answering 50 (content_check py ctx))
      ∷ (
        "requireApproval",
        pure_gate 90 (λ cfg. value (held "requireApproval" "human approval required")),
      )
      ∷ (
        "dualAuthorization",
        pure_gate 90 (λ cfg. value (held "dualAuthorization" "two distinct approvals required")),
      )
      ∷ []

  -- An unknown name is left out.
  unfoldable pub known_items : List (String × Value) → List Item
  unfolding find_gate
  known_items [] = []
  known_items ((name, cfg) ∷ rest) =
      let later = known_items rest in
      elim (find_gate gate_table name) [
        | none ↦ later
        | some g ↦ record { cost = g.cost; name = name; cfg = cfg } ∷ later
      ]

  -- the gates of an action in the order in which they run
  unfoldable pub items_of : ResolvedAction → List (String × Value) → List Item
  unfolding known_items with_guard
  items_of a gates = sort (with_guard a (known_items gates))

  unfoldable pub run_gate : String → Value → W → Answer W
  unfolding find_gate
  run_gate name cfg w =
      if str_eq name transition_guard
      then elim (cfg_get cfg "from") [
        | none ↦ (raise foreign, w)
        | some states ↦ (check_from_states py ctx states, w)
      ]
      else elim (find_gate gate_table name) [ none ↦ (raise foreign, w) | some g ↦ g.run cfg w ]

  unfoldable pub after_gate : Eval GateResult → Eval GateResult
  after_gate answer = answer >>= (λ r. value (classified r))

  unfoldable pub run_if : String → Value → Eval Bool → W → Answer W
  unfolding after_gate condition_error
  run_if name cfg (raise foreign) w = (raise foreign, w)
  run_if name cfg (raise _) w = (value (condition_error name), w)
  run_if name cfg (value false) w = (value (passed name "inactive: when=false"), w)
  run_if name cfg (value true) w = let (answer, w') = run_gate name cfg w in (after_gate answer, w')

  -- `_run_one`
  unfoldable pub run_one : String → Value → W → Answer W
  unfolding run_if
  run_one name cfg w = run_if name cfg (is_active py ctx.request.eval_ctx cfg) w
