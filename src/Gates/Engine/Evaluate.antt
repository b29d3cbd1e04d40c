-- ===== src/Gates/Engine/Evaluate.antt =====
-- stonefold_gates/engine.py: all gates of an action. A FAIL ends the run, and holds need contracts.
pub mod Laws
pub mod Holds
pub mod Transitions
use stonefold.Prelude.{ℕ, String, Option, none, some, List, [], ◌∷◌, ◌++◌, ◌+s◌}
use stonefold.Values.{Value}
use stonefold.Models.Enums.{Outcome}
use stonefold.Models.Records.{
  GateResult, GateOutcome, ResolvedAction, ReleaseContract, ApprovalSpec,
}
use stonefold.Condition.Evaluate.{Eval, value, raise, ◌>>=◌}
use stonefold.Gates.{GatePy, GateContext, Answer}
use stonefold.Gates.Engine.{Item, items_of, run_one}
use stonefold.Gates.Engine.Contracts.{approval_spec, release_contract}

-- a gate that holds, with its configuration and its result
pub record Holding : Type 0 where
  pub name : String
  pub cfg : Value
  pub result : GateResult

-- The loop over the gates: the results so far, and the gate that failed or those that hold.
pub data Ran : Type 0 where
  refused : String → List GateResult → Ran
  through : List GateResult → List Holding → Ran

-- one more result in front, with its hold if it is one
unfoldable pub after : GateResult → List Holding → Ran → Ran
after r new (refused name rs) = refused name (r ∷ rs)
after r new (through rs hs) = through (r ∷ rs) (new ++ hs)

outcome_of : Outcome → List GateResult → String → GateOutcome
outcome_of outcome results reason = record {
  outcome = outcome;
  results = results;
  reason = reason;
  approval = none;
  releases = [];
}

held_outcome : List GateResult → String → List ReleaseContract → ApprovalSpec → GateOutcome
held_outcome results name contracts spec = record {
  outcome = Outcome.hold;
  results = results;
  reason = "gate:" +s name;
  approval = some spec;
  releases = contracts;
}

unfoldable pub prepend :
    ReleaseContract → Option (List ReleaseContract) → Option (List ReleaseContract)
prepend c none = none
prepend c (some cs) = some (c ∷ cs)

unfoldable pub with_rest :
    Option ReleaseContract
    → Eval (Option (List ReleaseContract))
    → Eval (Option (List ReleaseContract))
unfolding prepend
with_rest none rest = value none
with_rest (some c) rest = rest >>= (λ cs. value (prepend c cs))

-- The contracts of all holding gates. The first hold without one ends the loop.
unfoldable pub contracts_of :
    GatePy → Option String → List Holding → Eval (Option (List ReleaseContract))
contracts_of py role [] = value (some [])
contracts_of py role (h ∷ hs) =
    release_contract py role h.name h.cfg h.result >>= (λ c. with_rest c (contracts_of py role hs))

unfoldable pub hold_with :
    GatePy → List GateResult → Holding → Option (List ReleaseContract) → Eval GateOutcome
unfolding held_outcome outcome_of
hold_with py results h none = value (outcome_of Outcome.fail results "hold-unresolvable")
hold_with py results h (some contracts) =
    approval_spec py h.name h.cfg >>= (λ spec. value (held_outcome results h.name contracts spec))

unfoldable pub conclude : GatePy → Option String → Ran → Eval GateOutcome
unfolding hold_with outcome_of
conclude py role (refused name results) = value (outcome_of Outcome.fail results ("gate:" +s name))
conclude py role (through results []) = value (outcome_of Outcome.pass results "")
conclude py role (through results (h ∷ hs)) =
    contracts_of py role (h ∷ hs) >>= hold_with py results h

abbrev pub holding : Item → GateResult → Holding
holding i r = record { name = i.name; cfg = i.cfg; result = r }

module _ {W : Type 0} where
  unfoldable pub more : GateResult → List Holding → Eval Ran × W → Eval Ran × W
  unfolding after
  more r hs (raise e, w) = (raise e, w)
  more r hs (value ran, w) = (value (after r hs ran), w)

  unfoldable pub by_outcome : Item → GateResult → Outcome → W → (W → Eval Ran × W) → Eval Ran × W
  unfolding more
  by_outcome i r Outcome.fail w k = (value (refused i.name (r ∷ [])), w)
  by_outcome i r Outcome.pass w k = more r [] (k w)
  by_outcome i r Outcome.hold w k = more r (holding i r ∷ []) (k w)

  -- what the loop makes of one answer, where `k` is the rest of the loop
  unfoldable pub continue_with : Item → Answer W → (W → Eval Ran × W) → Eval Ran × W
  unfolding by_outcome
  continue_with i (raise e, w) k = (raise e, w)
  continue_with i (value r, w) k = by_outcome i r r.outcome w k

unfoldable pub concluded :
    {W : Type 0} → GatePy → Option String → Eval Ran × W → Eval GateOutcome × W
concluded py role (ran, w) = (ran >>= conclude py role, w)

module _ {W : Type 0} (py : GatePy) (ctx : GateContext W) where
  unfoldable pub run_items : List Item → W → Eval Ran × W
  run_items [] w = (value (through [] []), w)
  run_items (i ∷ is) w = continue_with i (run_one py ctx i.name i.cfg w) (run_items is)

  -- `evaluate`, of the gates that the policy gives for the action
  unfoldable pub evaluate : Option String → List (String × Value) → W → Eval GateOutcome × W
  unfolding concluded
  evaluate role gates w =
      concluded py role (run_items (items_of py ctx ctx.request.resolved gates) w)
