-- ===== src/Gates/Match/Decide/Evidence.antt =====
-- The evidence of requireMatch, as the pipeline reads it when it reserves.
use stonefold.Prelude.{
  ◌≡◌, ◌≢◌, refl, ap, ◌∙◌, Option-cases, none, some, true, false, Bool-cases, inl, inr, str_eq,
  ◌&&◌, Bool, if◌then◌else◌,
}
use stonefold.Values.{Value, Fields, get, py_str}
use stonefold.Models.Enums.{Outcome, is_pass}
use stonefold.Models.Records.{GateResult, Capability}
use stonefold.Failure.{should_fail_closed}
use stonefold.Obligation.{consumable}
use stonefold.Obligation
use stonefold.Pipeline.{Deps}
use stonefold.Pipeline.Claims.{first_ref, capability_of}
use stonefold.Pipeline.Claims.Laws.{IsReadable}
use stonefold.Condition.Evaluate.{value}
use stonefold.Gates.{GatePy, GateContext}
use stonefold.Gates.Match.Record.{plan_of, capability_value, refs_of}
use stonefold.Gates.Match.Decide.{registry_unavailable, require_match}
use stonefold.Gates.Match.Decide.Laws.{match_pass}

module _ {V : Type 0} (d : Deps V) where
  class_read :
      (c : Capability) → capability_of (py_str d.text (Value.str (capability_value c))) ≡ some c
  unfolding capability_of py_str capability_value
  class_read Capability.transactional = refl
  class_read Capability.window = refl

  plan-IsReadable :
      (registry : _) (ob : _) (consume : _) (c : Capability)
      → IsReadable d (plan_of registry ob consume c)
  unfolding plan_of get first_ref refs_of
  plan-IsReadable registry ob consume c = record {
    name = Value.str registry;
    ref = Value.str ob.ref;
    consume = Value.str consume;
    capability = Value.str (capability_value c);
    class_ = c;
    has_registry = refl;
    has_ref = refl;
    has_consume = refl;
    has_capability = refl;
    is_class = class_read c;
  }

only_pass : (o : Outcome) → is_pass o ≡ true → o ≡ Outcome.pass
only_pass Outcome.pass h = refl
only_pass Outcome.fail h = absurd cc
only_pass Outcome.hold h = absurd cc

entitled :
    (a b c : Bool) {ev plan : Fields}
    → (if a && b && c then some ev else none) ≡ some plan
    → (ev ≡ plan) × (b ≡ true)
entitled false b c h = absurd cc
entitled true false c h = absurd cc
entitled true true false h = absurd cc
entitled true true true h = (cc, refl)

evidence_of_plan :
    (r : GateResult) (plan : Fields)
    → Obligation.plan_of r ≡ some plan
    → (r.evidence ≡ some plan) × (r.outcome ≡ Outcome.pass)
unfolding Obligation.plan_of
evidence_of_plan r plan h = elim (Option-cases r.evidence) [
  | inl e ↦ absurd (cc (rw (Obligation.plan_of, e) at h))
  | inr (ev, e) ↦
      let (same, p) =
        entitled (str_eq r.gate "requireMatch") (is_pass r.outcome) (consumable ev)
          (rw (Obligation.plan_of, e) at h) in
      (e ∙ ap some same, only_pass r.outcome p)
]

module _ {V W : Type 0} (d : Deps V) (py : GatePy) (ctx : GateContext W) where
  no_evidence : (registry_unavailable py ctx).evidence ≡ none
  unfolding registry_unavailable
  no_evidence =
      elim (Bool-cases (should_fail_closed (some ctx.request.resolved) ctx.request.failure_mode)) [
        | inl e ↦ rw (registry_unavailable, e) refl
        | inr e ↦ rw (registry_unavailable, e) refl
      ]

  -- The evidence of a result of requireMatch that entitles to a reservation has the entries that the
  -- pipeline reads when it reserves, whatever the configuration, the registry's answer and the failure
  -- mode: the gate gives what the pipeline takes a gate engine to give.
  pub require_match-IsReadable :
      (cfg : Value) (w : W) (r : GateResult) (w' : W) (plan : Fields)
      → require_match py ctx cfg w ≡ (value r, w')
      → Obligation.plan_of r ≡ some plan
      → IsReadable d plan
  require_match-IsReadable cfg w r w' plan h e =
      let (found, p) = evidence_of_plan r plan e in
      let available : registry_unavailable py ctx ≢ r =
        λ e'. absurd (cc (ap (λ r. r.evidence) e', no_evidence, found)) in
      let m = match_pass py ctx cfg r p available w w' h in
      let same : plan ≡ plan_of m.registry m.obligation m.consume m.capability =
        cc (found, m.plan) in
      rw same (plan-IsReadable d m.registry m.obligation m.consume m.capability)
