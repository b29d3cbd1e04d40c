-- ===== src/Gates/Engine/Evaluate/Holds.antt =====
-- What a verdict of HOLD demands.
use stonefold.Prelude.{
  ◌≡◌, refl, ap, ◌≢◌, sym, String, Option, none, some, List, [], ◌∷◌, map, Bool-cases, inl, inr,
}
use stonefold.Values.{Value}
use stonefold.Models.Enums.{Outcome}
use stonefold.Models.Records.{GateResult, GateOutcome, ReleaseContract}
use stonefold.Condition.Evaluate.{Eval, value, raise}
use stonefold.Condition.Evaluate.Extends.{bind_value, same_value}
use stonefold.Gates.{GatePy, GateContext}
use stonefold.Gates.Engine.{items_of}
use stonefold.Gates.Engine.Contracts.{
  release_contract, is_approval, approval_spec, by_approval, by_resolvers, contract_with,
}
use stonefold.Gates.Engine.Evaluate.{
  Holding, Ran, refused, through, contracts_of, conclude, run_items, prepend, with_rest, evaluate,
}
use stonefold.Gates.Engine.Evaluate.Laws.{
  Ended, hold_with-Ended, Through, run_items-Through, concluded_from,
}

same_some : {A : Type 0} {a b : A} → some a ≡ some b → a ≡ b
same_some h = cc

with_rest_made :
    (c : Option ReleaseContract) (rest : Eval (Option (List ReleaseContract)))
    {cs : List ReleaseContract}
    → with_rest c rest ≡ value (some cs)
    → (first : ReleaseContract) × (others : List ReleaseContract) × (c ≡ some first)
      × (rest ≡ value (some others))
      × (cs ≡ first ∷ others)
unfolding with_rest prepend
with_rest_made none rest h = absurd cc
with_rest_made (some c) (raise e) h = absurd cc
with_rest_made (some c) (value none) h = absurd cc
with_rest_made (some c) (value (some cs)) h = (c, cs, refl, refl, sym (same_some (same_value h)))

gate-contract_with :
    (gate : String) (r : GateResult) (a : Option (List String)) (c : ReleaseContract)
    → contract_with gate r a ≡ some c
    → c.gate ≡ gate
unfolding contract_with by_resolvers
gate-contract_with gate r none c h = absurd cc
gate-contract_with gate r (some rs) c h = sym (ap (λ c. c.gate) (same_some h))

module _ (py : GatePy) (role : Option String) where
  gate-release_contract :
      (gate : String) (cfg : Value) (r : GateResult) (c : ReleaseContract)
      → release_contract py role gate cfg r ≡ value (some c)
      → c.gate ≡ gate
  unfolding release_contract by_approval
  gate-release_contract gate cfg r c h = elim (Bool-cases (is_approval gate)) [
    | inl e ↦
        let (spec, found, same) =
          bind_value (approval_spec py gate cfg) _ (rw (release_contract, e) at h) in
        sym (ap (λ c. c.gate) (same_some (same_value same)))
    | inr e ↦ gate-contract_with gate r _ c (same_value (rw (release_contract, e) at h))
  ]

  gates-contracts_of :
      (hs : List Holding) (cs : List ReleaseContract)
      → contracts_of py role hs ≡ value (some cs)
      → map (λ c. c.gate) cs ≡ map (λ h. h.name) hs
  unfolding contracts_of
  gates-contracts_of [] cs h = sym (ap (map (λ c. c.gate)) (same_some (same_value h)))
  gates-contracts_of (x ∷ xs) cs h =
      let (c, found, rest) = bind_value (release_contract py role x.name x.cfg x.result) _ h in
      let (first, others, made, kept, e) = with_rest_made c (contracts_of py role xs) rest in
      let here = gate-release_contract x.name x.cfg x.result first (rw (sym made) found) in
      rw (e, here, gates-contracts_of xs others kept) refl

  conclude_hold :
      (ran : Ran) (o : GateOutcome)
      → conclude py role ran ≡ value o
      → o.outcome ≡ Outcome.hold
      → (hs : List Holding) × (ran ≡ through o.results hs)
        × (map (λ c. c.gate) o.releases ≡ map (λ h. h.name) hs)
        × (hs ≢ [])
  unfolding conclude Ended
  conclude_hold (refused name rs) o h p = absurd cc
  conclude_hold (through rs []) o h p = absurd cc
  conclude_hold (through rs (x ∷ xs)) o h p =
      let (c, found, same) = bind_value (contracts_of py role (x ∷ xs)) _ h in
      elim (hold_with-Ended py role rs x c o same) [
        | inl f ↦ absurd cc
        | inr (f, made, kept) ↦ (
          x ∷ xs,
          ap (λ rs. through rs (x ∷ xs)) kept,
          gates-contracts_of (x ∷ xs) o.releases (rw (sym made) found),
          λ e. cc,
        )
      ]

module _ {W : Type 0} (py : GatePy) (ctx : GateContext W) where
  -- When the verdict is HOLD, each gate of the action ran, in the order of their costs and each in
  -- the world that the one before left, none of them failed, at least one holds, and there is one
  -- release contract for each gate that holds, in the same order.
  pub evaluate-demands_each_hold :
      (role : Option String) (gates : List (String × Value)) (w : W) (o : GateOutcome) (w' : W)
      → evaluate py ctx role gates w ≡ (value o, w')
      → o.outcome ≡ Outcome.hold
      → (hs : List Holding) × Through py ctx
          (items_of py ctx ctx.request.resolved gates)
          w
          o.results
          hs
          w'
        × (map (λ c. c.gate) o.releases ≡ map (λ h. h.name) hs)
        × (hs ≢ [])
  unfolding evaluate
  evaluate-demands_each_hold role gates w o w' h p =
      let (ran, found, c) = concluded_from py ctx role (run_items py ctx _ w) h in
      let (hs, same, made, some_) = conclude_hold py role ran o c p in
      (hs, run_items-Through py ctx _ w o.results hs w' (rw (found, same) refl), made, some_)
