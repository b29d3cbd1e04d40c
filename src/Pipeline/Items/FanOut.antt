-- ===== src/Pipeline/Items/FanOut.antt =====
-- `_enforce_per_item`, and `enforce`, which takes it for a call with items.
pub mod Laws
pub mod Whole
use stonefold.Prelude.{
  ℕ, String, Bool, true, false, not, Option, none, some, List, [], ◌∷◌, map, any, keep, find, ◌&&◌,
  if◌then◌else◌, ltb, length, is_some,
}
use stonefold.Values.{Value, Fields}
use stonefold.Models.Enums.{
  Decision, EnforcementMode, Coverage, FeedbackLevel, is_refusal, is_hold, is_allow,
}
use stonefold.Models.Records.{
  RawCall, ItemsDef, ResolvedAction, Actor, Session, RequestEnv, EvalResult, ItemVerdict, Advice,
  GateResult,
}
use stonefold.Reasons.{classify}
use stonefold.Pipeline.{Act, ◌>>=◌, return, raise, Deps, Decided, decided_as, Sink, fresh_audit}
use stonefold.Pipeline.Advised.{as_advised}
use stonefold.Pipeline.Decide.{decide}
use stonefold.Pipeline.Commit.{ending_of, terminal}
use stonefold.Pipeline.Enforce.{commit_stamped, enforce_whole}
use stonefold.Pipeline.Batch.{each}
use stonefold.Pipeline.Items.{
  items_declaration, item_key, with_values, Item, worst, same_decision, item_sink, call_sink,
  template_of,
}

abbrev refusal_verdict : String → EvalResult → ItemVerdict
refusal_verdict name r = record {
  item = name;
  decision = r.decision;
  rule = r.rule;
  reason_code = r.reason_code;
  retry_class = r.retry_class;
  ticket = none;
}

abbrev applied_verdict : String → String → ItemVerdict
applied_verdict name rule = record {
  item = name;
  decision = Decision.allow;
  rule = rule;
  reason_code = "";
  retry_class = none;
  ticket = none;
}

-- a verdict of an applied item, once the applied call ended in r
revise : EnforcementMode → EvalResult → ItemVerdict → ItemVerdict
revise mode r v =
    if not (is_allow v.decision)
    then v
    else if not (is_allow r.decision)
    then record (refusal_verdict v.item r) { ticket = r.ticket }
    else elim mode [
      | EnforcementMode.enforced ↦ v
      | EnforcementMode.advisory ↦ record v { rule = r.rule }
    ]

revise_all : EnforcementMode → Option EvalResult → List ItemVerdict → List ItemVerdict
unfolding revise
revise_all mode none vs = vs
revise_all mode (some r) vs = map (revise mode r) vs

applied_names : Option EvalResult → List ItemVerdict → List String
applied_names none vs = []
applied_names (some r) vs =
    if is_allow r.decision
    then map (λ (v : ItemVerdict). v.item) (keep (λ (v : ItemVerdict). is_allow v.decision) vs)
    else []

-- the result's parts that the applied call gives, or their defaults
abbrev of_merged : {A : Type 0} → Option EvalResult → A → (EvalResult → A) → A
of_merged none default f = default
of_merged (some r) default f = f r

abbrev deciding : Decision → List ItemVerdict → Option ItemVerdict
deciding overall vs =
    find (λ (v : ItemVerdict). same_decision overall v.decision && not (is_allow v.decision)) vs

-- The envelope: the verdicts before the applied call, and what that call ended in.
unfoldable pub conclude :
    EnforcementMode → FeedbackLevel → Option EvalResult → List ItemVerdict → EvalResult
unfolding revise_all applied_names
conclude mode feedback merged before =
    let vs = revise_all mode merged before in
    let overall = worst (map (λ (v : ItemVerdict). v.decision) vs) in
    let w = deciding overall vs in
    record {
      decision = overall;
      rule = elim w [ some v ↦ v.rule | none ↦ of_merged merged "allow" (λ r. r.rule) ];
      gates = of_merged merged [] (λ r. r.gates);
      reason_code = elim w [ some v ↦ v.reason_code | none ↦ "" ];
      retry_class = elim w [ some v ↦ v.retry_class | none ↦ none ];
      feedback = of_merged merged feedback (λ r. r.feedback);
      ticket = of_merged merged none (λ r. r.ticket);
      output = of_merged merged none (λ r. r.output);
      scope_applied = of_merged merged [] (λ r. r.scope_applied);
      items = vs;
      applied = applied_names merged before;
    }

over_ceiling : Option ℕ → List Value → Bool
over_ceiling none vs = false
over_ceiling (some n) vs = ltb n (length vs)

is_applied : Item → Bool
is_applied i = is_allow i.decided.decision

first_feedback : List Item → FeedbackLevel
first_feedback [] = FeedbackLevel.code_fields
first_feedback (i ∷ is) = i.decided.feedback

module _ {W : Type 0} (d : Deps W) (actor : Actor) (session : Session) (env : Option RequestEnv)
    (call : RawCall) (def : ItemsDef) where
  call_with : List Value → RawCall
  call_with vs = record call { payload = with_values def vs call.payload }

  -- an item's verdict, translated by the mode
  item_of : EnforcementMode → Value → Decided → Item
  item_of EnforcementMode.enforced v k = record {
    name = item_key d.text def v;
    value = v;
    decided = k;
    advice = none;
    coverage = Coverage.judged;
  }
  item_of EnforcementMode.advisory v k =
      let (k', advice, coverage) = as_advised d k in
      record {
        name = item_key d.text def v;
        value = v;
        decided = k';
        advice = advice;
        coverage = coverage;
      }

  decide_item : Value → Act W Item
  unfolding call_with item_of
  decide_item v =
      decide d actor session (call_with (v ∷ [])) env >>= (λ k. return (item_of d.enforcement v k))

  -- the loop's body: a refusal is audited, a hold commits by itself, an ALLOW waits for the call
  settle_item : Item → Act W ItemVerdict
  settle_item i =
      let k = i.decided in
      let sink = item_sink d.enforcement i in
      if is_refusal k.decision
      then (terminal d sink actor session k.decision k.rule k.call k.resolved
            (record (ending_of k) { outcome = k.outcome })
          >>= (λ r. return (refusal_verdict i.name r)))
      else if is_hold k.decision
      then (commit_stamped d actor session env sink k
          >>= (λ r. return (record (refusal_verdict i.name r) { ticket = r.ticket })))
      else return (applied_verdict i.name k.rule)

  -- the applied items go through as one call; its template must be resolved
  commit_merged : List Item → Item → Option ResolvedAction → Act W (Option EvalResult)
  unfolding call_with
  commit_merged is t none = raise
  commit_merged is t (some a) =
      let vs = map (λ (i : Item). i.value) is in
      commit_stamped d actor session env (call_sink d.enforcement is) (record t.decided {
        call = call_with vs;
        resolved = some (record a { payload = with_values def vs a.payload });
      })
      >>= (λ r. return (some r))

  apply_items : List Item → Act W (Option EvalResult)
  unfolding commit_merged
  apply_items [] = return none
  apply_items (i ∷ is) =
      let t = template_of d.enforcement i is in commit_merged (i ∷ is) t t.decided.resolved

  -- a call over its ceiling: refused in one record, or forwarded whole under advice
  forward_whole : Decided → Act W EvalResult
  forward_whole k =
      let (k', unused, coverage) = as_advised d k in
      let (reason_code, retry_class) = classify Decision.deny "items-over-ceiling" [] in
      let ceiling : Advice = record {
        decision = Decision.deny;
        rule = "items-over-ceiling";
        reason_code = reason_code;
        retry_class = retry_class;
        dedupe_key = none;
      } in
      commit_stamped d actor session env
        (some (
          if is_allow k'.decision
          then record fresh_audit { advice = some ceiling; coverage = Coverage.unjudged }
          else record fresh_audit { coverage = coverage }))
        k'

  refuse_ceiling : EnforcementMode → Act W EvalResult
  unfolding forward_whole
  refuse_ceiling EnforcementMode.enforced =
      terminal d none actor session Decision.deny "items-over-ceiling" call none
        (ending_of (decided_as call none Decision.deny "items-over-ceiling"))
  refuse_ceiling EnforcementMode.advisory = decide d actor session call env >>= forward_whole

  unfoldable pub fan_out : List Value → Act W EvalResult
  unfolding decide_item settle_item apply_items is_applied first_feedback
  fan_out vs = each decide_item vs >>= (λ is. each settle_item is >>= (λ verdicts.
      apply_items (keep is_applied is)
      >>= (λ merged. return (conclude d.enforcement (first_feedback is) merged verdicts))))

  unfoldable pub enforce_per_item : List Value → Act W EvalResult
  unfolding refuse_ceiling fan_out over_ceiling
  enforce_per_item vs =
      if over_ceiling def.max_items vs then refuse_ceiling d.enforcement else fan_out vs

module _ {W : Type 0} (d : Deps W) (actor : Actor) (session : Session)
    (env : Option RequestEnv) where
  enforce_at : RawCall → Option (ItemsDef × List Value) → Act W EvalResult
  enforce_at call none = enforce_whole d actor session env call
  enforce_at call (some (def, vs)) = enforce_per_item d actor session env call def vs

  -- `enforce`
  unfoldable pub enforce : RawCall → Act W EvalResult
  unfolding enforce_at
  enforce call = enforce_at call (items_declaration d call)
