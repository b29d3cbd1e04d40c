-- ===== src/Pipeline/Items/FanOut/Whole.antt =====
-- What a fan-out that answers ALLOW went through.
use stonefold.Prelude.{
  ◌≡◌, refl, Option, none, some, List, [], ◌∷◌, map, keep, Bool-cases, inl, inr, ◌⊎◌, sym, ap, ◌∙◌,
}
use stonefold.Models.Enums.{Decision, FeedbackLevel, is_refusal, is_hold}
use mathlib.Core.Path.{subst}
use stonefold.Values.{Value}
use stonefold.Models.Records.{
  EvalResult, ItemVerdict, RawCall, ItemsDef, ResolvedAction, Actor, Session, RequestEnv,
}
use stonefold.Pipeline.{Deps, Decided, Sink}
use stonefold.Pipeline.Audited.{bind_returned}
use stonefold.Pipeline.Batch.{each}
use stonefold.Pipeline.Enforce.{commit_stamped}
use stonefold.Pipeline.Items.{Item, with_values, call_sink, template_of}
use stonefold.Pipeline.Items.FanOut.{
  conclude, decide_item, settle_item, apply_items, commit_merged, call_with, is_applied,
  first_feedback,
}
use stonefold.Pipeline.Items.FanOut.Laws.{names, IsWhole, merged-IsWhole}

same_some : {A : Type 0} {x y : A} → some x ≡ some y → x ≡ y
same_some h = cc

verdict_name : {u v : ItemVerdict} → some u ≡ some v → v.item ≡ u.item
verdict_name h = ap (λ x. x.item) (sym (same_some h))

-- The applied call of a fan-out: the whole call with the values of the items that its decide phase
-- allowed, which was committed and ended in `result`.
record Applied {W : Type 0} (d : Deps W) (actor : Actor) (session : Session)
    (env : Option RequestEnv) (call : RawCall) (def : ItemsDef) (items : List Item)
    (result : EvalResult) : Type 0 where
  at : W
  template : Decided
  action : ResolvedAction
  sink : Sink
  made :
      let vs = map (λ (i : Item). i.value) items in
      (commit_stamped d actor session env sink
        (record template {
          call = record call { payload = with_values def vs call.payload };
          resolved = some (record action { payload = with_values def vs action.payload });
        })
        at).value
      ≡ some result

module _ {W : Type 0} (d : Deps W) (actor : Actor) (session : Session) (env : Option RequestEnv)
    (call : RawCall) (def : ItemsDef) where
  -- What a fan-out that says ALLOW went through.
  pub record FannedOut (vs : List Value) (w : W) (r : EvalResult) : Type 0 where
    items : List Item
    before : List ItemVerdict
    named : names before ≡ map (λ (i : Item). i.name) items
    decided_all : (each (decide_item d actor session env call def) vs w).value ≡ some items
    whole :
        (keep is_applied items ≡ [])
        ⊎ (m : EvalResult) × Applied d actor session env call def (keep is_applied items) m
          × IsWhole before r

  settle_item-name :
      (i : Item) (v : ItemVerdict) (w : W)
      → (settle_item d actor session env call def i w).value ≡ some v
      → v.item ≡ i.name
  unfolding settle_item
  settle_item-name i v w h = elim (Bool-cases (is_refusal i.decided.decision)) [
    | inl e ↦
        let (r, made, same) = bind_returned _ _ w v (rw (settle_item, e) at h) in verdict_name same
    | inr e ↦ elim (Bool-cases (is_hold i.decided.decision)) [
      | inl f ↦
          let (r, made, same) = bind_returned _ _ w v (rw (settle_item, e, f) at h) in
          verdict_name same
      | inr f ↦ verdict_name (rw (settle_item, e, f) at h)
    ]
  ]

  settle_all-names :
      (items : List Item) (vs : List ItemVerdict) (w : W)
      → (each (settle_item d actor session env call def) items w).value ≡ some vs
      → names vs ≡ map (λ (i : Item). i.name) items
  unfolding each
  settle_all-names [] vs w h = ap names (sym (same_some h))
  settle_all-names (i ∷ items) vs w h =
      let (v, settled, h1) = bind_returned (settle_item d actor session env call def i) _ w vs h in
      let w1 = (settle_item d actor session env call def i w).world in
      let (rest, others, same) =
        bind_returned (each (settle_item d actor session env call def) items) _ w1 vs h1 in
      ap names (sym (same_some same))
      ∙ ap (λ n. n ∷ names rest) (settle_item-name i v w settled)
      ∙ ap (λ ns. i.name ∷ ns) (settle_all-names items rest w1 others)

  commit_merged-Applied :
      (is : List Item) (t : Item) (o : Option ResolvedAction) (merged : Option EvalResult) (w : W)
      → (commit_merged d actor session env call def is t o w).value ≡ some merged
      → (m : EvalResult) × (merged ≡ some m) × Applied d actor session env call def is m
  unfolding commit_merged call_with
  commit_merged-Applied is t none merged w h = absurd cc
  commit_merged-Applied is t (some a) merged w h =
      let (m, made, same) = bind_returned _ _ w merged h in
      (
        m,
        sym cc,
        record {
          at = w;
          template = t.decided;
          action = a;
          sink = call_sink d.enforcement is;
          made = made;
        },
      )

  apply_items-Applied :
      (is : List Item) (merged : Option EvalResult) (w : W)
      → (apply_items d actor session env call def is w).value ≡ some merged
      → (is ≡ []) ⊎ (m : EvalResult) × (merged ≡ some m) × Applied d actor session env call def is m
  unfolding apply_items
  apply_items-Applied [] merged w h = inl refl
  apply_items-Applied (i ∷ is) merged w h = inr (
      commit_merged-Applied (i ∷ is) (template_of d.enforcement i is)
        (template_of d.enforcement i is).decided.resolved merged w h)

  whole_of :
      (feedback : FeedbackLevel) (before : List ItemVerdict) (merged : Option EvalResult)
      (r : EvalResult) (kept : List Item)
      → conclude d.enforcement feedback merged before ≡ r
      → r.decision ≡ Decision.allow
      → (kept ≡ [])
        ⊎ (m : EvalResult) × (merged ≡ some m) × Applied d actor session env call def kept m
      → (kept ≡ [])
        ⊎ (m : EvalResult) × Applied d actor session env call def kept m × IsWhole before r
  whole_of feedback before merged r kept same allowed (inl e) = inl e
  whole_of feedback before merged r kept same allowed (inr (m, e, applied)) =
      let ended : conclude d.enforcement feedback (some m) before ≡ r =
        ap (λ x. conclude d.enforcement feedback x before) (sym e) ∙ same in
      inr (
        m,
        applied,
        subst (IsWhole before) ended
            (merged-IsWhole d.enforcement feedback m before (ap (λ x. x.decision) ended ∙ allowed)),
      )

  concluded :
      (vs : List Value) (w w1 w2 : W) (r : EvalResult) (items : List Item)
      (before : List ItemVerdict) (merged : Option EvalResult)
      → (each (decide_item d actor session env call def) vs w).value ≡ some items
      → (each (settle_item d actor session env call def) items w1).value ≡ some before
      → (apply_items d actor session env call def (keep is_applied items) w2).value ≡ some merged
      → some (conclude d.enforcement (first_feedback items) merged before) ≡ some r
      → r.decision ≡ Decision.allow
      → FannedOut vs w r
  concluded vs w w1 w2 r items before merged decided_all settled_all called same allowed = record {
    items = items;
    before = before;
    named = settle_all-names items before w1 settled_all;
    decided_all = decided_all;
    whole =
        whole_of (first_feedback items) before merged r (keep is_applied items) (cc) allowed
          (apply_items-Applied (keep is_applied items) merged w2 called);
  }
