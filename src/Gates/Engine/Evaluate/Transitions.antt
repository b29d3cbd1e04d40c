-- ===== src/Gates/Engine/Evaluate/Transitions.antt =====
-- A transition that the gates let pass.
use stonefold.Prelude.{
  ◌≡◌, refl, ap, sym, ◌∙◌, String, Bool-cases, true, Option, none, some, List, [], ◌∷◌, map, arith,
  inl, inr,
}
use stonefold.Values.{Value, get, to_list}
use stonefold.Models.Enums.{Outcome, Kind, kind_eq}
use stonefold.Models.Records.{GateResult, GateOutcome}
use stonefold.Condition.Evaluate.{Eval, value}
use stonefold.Condition.Evaluate.Extends.{same_value}
use stonefold.Gates.{GatePy, GateContext, cfg_get}
use stonefold.Gates.Guards.{from_states, check_from_states, listed, any_equal, is_null}
use stonefold.Gates.Engine.{
  Item, insert, sort, texts, guard_item, with_guard, has_any, known_items, items_of, run_one,
  run_if, run_gate, is_active, classified, after_gate,
}
use stonefold.Gates.Engine.Evaluate.{evaluate}
use stonefold.Gates.Engine.Evaluate.Laws.{Through, passes, evaluate-passes_all}

insert_free : (x : Item) (l : List Item) → x.cost ≡ 0 → insert x l ≡ x ∷ l
unfolding insert
insert_free x [] e = refl
insert_free x (y ∷ ys) e = ground (arith, e)

to_list-texts : (ss : List String) → to_list (texts ss) ≡ map Value.str ss
unfolding texts
to_list-texts [] = refl
to_list-texts (s ∷ ss) = ap (◌∷◌ (Value.str s)) (to_list-texts ss)

classified_pass :
    (r : GateResult) → (classified r).outcome ≡ Outcome.pass → r.outcome ≡ Outcome.pass
unfolding classified
classified_pass r h = ground (arith, h)

module _ (py : GatePy) where
  from_states_pass :
      (allowed : List Value) (o : Option Value)
      → (from_states py allowed o).outcome ≡ Outcome.pass
      → (current : Value) × (o ≡ some current) × (any_equal py current allowed ≡ true)
  unfolding from_states
  from_states_pass allowed none h = absurd cc
  from_states_pass allowed (some v) h = elim (Bool-cases (is_null v)) [
    | inl n ↦ absurd (cc (rw (from_states, n) at h))
    | inr n ↦ elim (Bool-cases (any_equal py v allowed)) [
      | inl e ↦ (v, refl, e)
      | inr e ↦ absurd (cc (rw (from_states, n, e) at h))
    ]
  ]

  guard_answer :
      (ss : List String) (o : Option Value)
      → (e : GateResult) → value (classified (from_states py (map Value.str ss) o)) ≡ value e
      → e.outcome ≡ Outcome.pass
      → (current : Value) × (o ≡ some current) × (any_equal py current (map Value.str ss) ≡ true)
  guard_answer ss o e h p =
      from_states_pass _ o (classified_pass _ (ap (λ r. r.outcome) (same_value h) ∙ p))

module _ {W : Type 0} (py : GatePy) (ctx : GateContext W) where
  run_guard :
      (ss : List String) (w : W)
      → run_one py ctx (guard_item ss).name (guard_item ss).cfg w ≡ (
        value (
            classified
              (from_states py (map Value.str ss) (get ctx.request.env.resource "currentState"))),
        w,
      )
  unfolding run_one run_if run_gate is_active after_gate guard_item check_from_states listed cfg_get
      get
  run_guard ss w =
      ap {B = Eval GateResult × W}
        (λ l.
          (value (classified (from_states py l (get ctx.request.env.resource "currentState"))), w))
        (to_list-texts ss)

  guard_first :
      (gates : List (String × Value)) (s : String) (ss : List String)
      → ctx.request.resolved.kind ≡ Kind.transition
      → ctx.request.resolved.from_states ≡ s ∷ ss
      → items_of py ctx ctx.request.resolved gates
        ≡ guard_item (s ∷ ss) ∷ sort (known_items py ctx gates)
  unfolding items_of with_guard has_any kind_eq sort guard_item
  guard_first gates s ss k f = rw (items_of, with_guard, k, f) (insert_free _ _ refl)

  first_passes :
      {i : Item} {is : List Item} {w : W} {rs : List GateResult} {w' : W}
      → Through py ctx (i ∷ is) w rs [] w'
      → (r : GateResult) × (next : W) × (run_one py ctx i.name i.cfg w ≡ (value r, next))
        × (r.outcome ≡ Outcome.pass)
  first_passes (passes i is w r next rs hs w' s e t) = (r, next, s, e)

  -- When the gates of a transition that declares from-states all pass, the target's current state is
  -- known and equal to one of the declared states, whatever gates the policy lists.
  pub evaluate-guards_transition :
      (role : Option String) (gates : List (String × Value)) (w : W) (o : GateOutcome) (w' : W)
      (s : String) (ss : List String)
      → ctx.request.resolved.kind ≡ Kind.transition
      → ctx.request.resolved.from_states ≡ s ∷ ss
      → evaluate py ctx role gates w ≡ (value o, w')
      → o.outcome ≡ Outcome.pass
      → (current : Value) × (get ctx.request.env.resource "currentState" ≡ some current)
        × (any_equal py current (map Value.str (s ∷ ss)) ≡ true)
  evaluate-guards_transition role gates w o w' s ss k f h p =
      let all_passed = evaluate-passes_all py ctx role gates w o w' h p in
      let (r, next, ran, e) = first_passes (rw (guard_first gates s ss k f) at all_passed) in
      guard_answer py (s ∷ ss) _ r (ap (λ q. q.0) (sym (run_guard (s ∷ ss) w) ∙ ran)) e
