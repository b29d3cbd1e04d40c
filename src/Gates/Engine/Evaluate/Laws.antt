-- ===== src/Gates/Engine/Evaluate/Laws.antt =====
-- What the outcome of all gates says of each.
use stonefold.Prelude.{
  ◌≡◌, refl, ap, String, Option, none, some, List, [], ◌∷◌, ◌++◌, sym, ◌⊎◌, inl, inr,
}
use stonefold.Values.{Value}
use stonefold.Models.Enums.{Outcome}
use stonefold.Models.Records.{GateResult, GateOutcome, ReleaseContract}
use stonefold.Condition.Evaluate.{Eval, value, raise}
use stonefold.Gates.{GatePy, GateContext, Answer}
use stonefold.Gates.Engine.{Item, items_of, run_one}
use stonefold.Gates.Engine.Contracts.{approval_spec}
use stonefold.Condition.Evaluate.Extends.{bind_value, same_value}
use stonefold.Gates.Engine.Evaluate.{
  Holding, holding, Ran, refused, through, hold_with, contracts_of, concluded, after, more,
  by_outcome, continue_with, run_items, conclude, evaluate,
}

module _ (py : GatePy) (role : Option String) where
  -- a run with holds ends as a refusal, or as a hold with the contracts
  unfoldable pub Ended : List GateResult → Option (List ReleaseContract) → GateOutcome → Type 0
  Ended rs c o =
      (o.outcome ≡ Outcome.fail)
      ⊎ ((o.outcome ≡ Outcome.hold) × (c ≡ some o.releases) × (rs ≡ o.results))

  pub hold_with-Ended :
      (rs : List GateResult) (x : Holding) (c : Option (List ReleaseContract)) (o : GateOutcome)
      → hold_with py rs x c ≡ value o
      → Ended rs c o
  unfolding hold_with Ended
  hold_with-Ended rs x none o h = inl (sym (ap (λ o. o.outcome) (same_value h)))
  hold_with-Ended rs x (some contracts) o h =
      let (spec, found, same) = bind_value (approval_spec py x.name x.cfg) _ h in
      let e = same_value same in
      inr (sym (ap (λ o. o.outcome) e), ap (λ o. some o.releases) e, ap (λ o. o.results) e)

  conclude_pass :
      (ran : Ran) (o : GateOutcome)
      → conclude py role ran ≡ value o
      → o.outcome ≡ Outcome.pass
      → ran ≡ through o.results []
  unfolding conclude Ended
  conclude_pass (refused name rs) o h p = absurd cc
  conclude_pass (through rs []) o h p = rw (ap (λ o. o.results) (same_value h)) refl
  conclude_pass (through rs (x ∷ xs)) o h p =
      let (c, found, same) = bind_value (contracts_of py role (x ∷ xs)) _ h in
      elim (hold_with-Ended rs x c o same) [ inl f ↦ absurd cc | inr (f, made, kept) ↦ absurd cc ]

module _ {W : Type 0} (py : GatePy) (ctx : GateContext W) where
  -- Every gate of the list ran, in its order and from one world to the next, and none failed: the
  -- results, and the gates that hold.
  pub data Through : List Item → W → List GateResult → List Holding → W → Type 0 where
    done : (w : W) → Through [] w [] [] w
    passes :
        (i : Item) (is : List Item) (w : W) (r : GateResult) (next : W) (rs : List GateResult)
        (hs : List Holding) (w' : W)
        → run_one py ctx i.name i.cfg w ≡ (value r, next)
        → r.outcome ≡ Outcome.pass
        → Through is next rs hs w'
        → Through (i ∷ is) w (r ∷ rs) hs w'
    holds :
        (i : Item) (is : List Item) (w : W) (r : GateResult) (next : W) (rs : List GateResult)
        (hs : List Holding) (w' : W)
        → run_one py ctx i.name i.cfg w ≡ (value r, next)
        → r.outcome ≡ Outcome.hold
        → Through is next rs hs w'
        → Through (i ∷ is) w (r ∷ rs) (holding i r ∷ hs) w'

  through_nothing :
      {w w' : W} {rs : List GateResult} {hs : List Holding}
      → ◌≡◌ {A = Eval Ran × W} (value (through [] []), w) (value (through rs hs), w')
      → (rs ≡ []) × (hs ≡ []) × (w ≡ w')
  through_nothing h = (cc, cc, cc)

  more-through :
      (r : GateResult) (new : List Holding) (q : Eval Ran × W) {rs : List GateResult}
      {hs : List Holding} {w' : W}
      → more r new q ≡ (value (through rs hs), w')
      → (later : List GateResult) × (rest : List Holding) × (q ≡ (value (through later rest), w'))
        × (rs ≡ r ∷ later)
        × (hs ≡ new ++ rest)
  unfolding more after
  more-through r new (raise e, w) h = absurd cc
  more-through r new (value (refused name rs), w) h = absurd cc
  more-through r new (value (through later rest), w) h = (later, rest, cc, cc, cc)

  module _ (i : Item) (is : List Item) (w : W) (k : W → Eval Ran × W)
      (rest_lem : (v : W) (rs : List GateResult) (hs : List Holding) (w' : W)
        → k v ≡ (value (through rs hs), w')
        → Through is v rs hs w') where
    outcome-Through :
        (r : GateResult) (next : W)
        → run_one py ctx i.name i.cfg w ≡ (value r, next)
        → (o : Outcome) → r.outcome ≡ o
        → (rs : List GateResult) (hs : List Holding) (w' : W)
        → by_outcome i r o next k ≡ (value (through rs hs), w')
        → Through (i ∷ is) w rs hs w'
    unfolding by_outcome
    outcome-Through r next s Outcome.fail e rs hs w' h = absurd cc
    outcome-Through r next s Outcome.pass e rs hs w' h =
        let (later, rest, found, a, b) = more-through r [] (k next) h in
        rw (a, b) (passes i is w r next later rest w' s e (rest_lem next later rest w' found))
    outcome-Through r next s Outcome.hold e rs hs w' h =
        let (later, rest, found, a, b) = more-through r (holding i r ∷ []) (k next) h in
        rw (a, b) (holds i is w r next later rest w' s e (rest_lem next later rest w' found))

    answer-Through :
        (p : Answer W)
        → run_one py ctx i.name i.cfg w ≡ p
        → (rs : List GateResult) (hs : List Holding) (w' : W)
        → continue_with i p k ≡ (value (through rs hs), w')
        → Through (i ∷ is) w rs hs w'
    unfolding continue_with
    answer-Through (raise e, next) s rs hs w' h = absurd cc
    answer-Through (value r, next) s rs hs w' h = outcome-Through r next s r.outcome refl rs hs w' h

  pub run_items-Through :
      (is : List Item) (w : W) (rs : List GateResult) (hs : List Holding) (w' : W)
      → run_items py ctx is w ≡ (value (through rs hs), w')
      → Through is w rs hs w'
  unfolding run_items
  run_items-Through [] w rs hs w' h = let (a, b, c) = through_nothing h in rw (a, b, sym c) (done w)
  run_items-Through (i ∷ is) w rs hs w' h =
      answer-Through i is w (run_items py ctx is) (run_items-Through is) _ refl rs hs w' h

  pub concluded_from :
      (role : Option String) (q : Eval Ran × W) {o : GateOutcome} {w' : W}
      → concluded py role q ≡ (value o, w')
      → (ran : Ran) × (q ≡ (value ran, w')) × (conclude py role ran ≡ value o)
  unfolding concluded
  concluded_from role (raise e, w) h = absurd cc
  concluded_from role (value ran, w) h = (ran, cc, cc)

  -- When all gates pass, each gate of the action ran, in the order of their costs and each in the
  -- world that the one before left, and each one's result is a pass.
  pub evaluate-passes_all :
      (role : Option String) (gates : List (String × Value)) (w : W) (o : GateOutcome) (w' : W)
      → evaluate py ctx role gates w ≡ (value o, w')
      → o.outcome ≡ Outcome.pass
      → Through (items_of py ctx ctx.request.resolved gates) w o.results [] w'
  unfolding evaluate
  evaluate-passes_all role gates w o w' h p =
      let (ran, found, c) = concluded_from role (run_items py ctx _ w) h in
      run_items-Through _ w o.results [] w' (rw (found, sym (conclude_pass py role ran o c p)) refl)
