-- ===== src/Dispatch/Claimed.antt =====
-- `_run_claimed` after the claim: the connector, its digest, the scope, the dispatch, the settle.
pub mod Laws
use stonefold.Prelude.{
  String, Bool, true, false, not, Option, none, some, List, [], ◌∷◌, ◌++◌, ◌&&◌, ◌+s◌,
  if◌then◌else◌,
}
use stonefold.Values.{Fields}
use stonefold.Models.Enums.{Decision, EnforcementMode, Coverage, is_irreversible}
use stonefold.Models.Records.{
  ResolvedAction, Actor, Advice, Compensation, Consumption, ObligationClaim,
}
use stonefold.Failure.{Call, ok, raised}
use stonefold.Obligation.{ConsumeResult, consumed, already_consumed}
use stonefold.Outbox.{PendingState, PendingAction}
use stonefold.Pipeline.{ScopePredicate, Adapter}
use stonefold.Pipeline.Claims.{audit_dict}
use stonefold.Dispatch.{
  Delivery, Answer, delivered, scope_lost, cancelled, failed, Reassertion, transactional, window,
  Connector, Worker, Asked, target_fetched, dispatched, consume_asked, Settlement, audit_record,
  scope_advice, compensated, result_refs_of,
}

-- `ScopeCapability.audit_note`
abbrev pub audit_note : Reassertion → String
audit_note transactional = "reassertion:transactional"
audit_note (window label) = "reassertion:window:" +s label

settled_consumption : ObligationClaim → Call ConsumeResult → Consumption
settled_consumption c raised = audit_dict "consume-unavailable" c none
settled_consumption c (ok (consumed receipt)) = audit_dict "consumed" c receipt
settled_consumption c (ok already_consumed) = audit_dict "consume-refused" c none

abbrev is_scoped : Reassertion → Bool
is_scoped transactional = true
is_scoped (window label) = false

module _ {W : Type 0} (d : Worker W) (row : PendingAction) where
  -- the settle of a row that was not delivered
  pub undelivered :
      PendingState
      → Option String
      → Decision
      → String
      → String
      → List String
      → Call (Option ResolvedAction)
      → List Asked
      → W
      → Settlement W
  undelivered state reason decision outcome rule trace compensation asked w = record {
    state = state;
    reason = reason;
    audit = audit_record row decision outcome [] rule trace none none Coverage.judged;
    compensation = compensation;
    asked = asked;
    world = w;
  }

  -- `_settle_scope_failure` and `_settle_digest_failure`: nothing landed, so nothing is compensated
  refused_by : String → List String → List Asked → W → Settlement W
  refused_by reason trace asked w =
      undelivered PendingState.failed (some reason) Decision.deny "failure" reason trace (ok none)
        asked w

  -- `_maybe_compensate`
  unfoldable pub maybe_compensate : Call (Option ResolvedAction)
  maybe_compensate = elim row.compensation [
    | none ↦ ok none
    | some c ↦
        if is_irreversible row.resolved.attrs.reversibility
        then compensated d.resolve row.resolved c
        else ok none
  ]

  failed_dispatch : List Asked → W → Settlement W
  failed_dispatch asked w =
      undelivered PendingState.failed none Decision.deny "failure" "dispatch" [] maybe_compensate
        asked w

  consume_with : Option (Adapter W) → ObligationClaim → W → Option Consumption × List Asked × W
  unfolding settled_consumption
  consume_with none c w = (some (audit_dict "consume-unavailable" c none), [], w)
  consume_with (some adapter) c w =
      let (answer, w') = adapter.consume c.ref c.intent_id w in
      (some (settled_consumption c answer), consume_asked ∷ [], w')

  consume_of : Option ObligationClaim → W → Option Consumption × List Asked × W
  unfolding consume_with
  consume_of none w = (none, [], w)
  consume_of (some c) w = consume_with (d.obligations c.registry) c w

  landed : List String → Option Advice → Coverage → List Asked → Delivery → W → Settlement W
  unfolding consume_of
  landed trace advised coverage asked r w =
      let (consumption, more, w') = consume_of row.obligation w in
      record {
        state = PendingState.done;
        reason = none;
        audit =
            audit_record row Decision.allow "success" (result_refs_of d.text r) "dispatch" trace
              consumption advised coverage;
        compensation = ok none;
        asked = asked ++ more;
        world = w';
      }

  after_dispatch : List String → Option Advice → Coverage → List Asked → Answer × W → Settlement W
  unfolding landed
  after_dispatch trace advised coverage asked (delivered r, w) =
      landed trace advised coverage asked r w
  after_dispatch trace advised coverage asked (scope_lost, w) =
      refused_by "scope-lost" trace asked w
  after_dispatch trace advised coverage asked (cancelled, w) =
      undelivered PendingState.cancelled none Decision.halt "cancelled" "dispatch" [] (ok none)
        asked w
  after_dispatch trace advised coverage asked (failed, w) = failed_dispatch asked w

  send : Connector W → List String → Option Advice → Coverage → List Asked → W → Settlement W
  unfolding after_dispatch
  send c trace advised coverage asked w =
      after_dispatch trace advised coverage (asked ++ dispatched ∷ [])
        (c.dispatch row.resolved row.actor row.idempotency_key w)

  -- a window connector: the target is looked up under the scope before the dispatch
  after_probe : Connector W → List String → Call (Option Fields) × W → Settlement W
  unfolding send refused_by
  after_probe c trace (raised, w) = refused_by "scope-unavailable" trace (target_fetched ∷ []) w
  after_probe c trace (ok none, w) = refused_by "scope-lost" trace (target_fetched ∷ []) w
  after_probe c trace (ok (some target), w) =
      send c trace none Coverage.judged (target_fetched ∷ []) w

  -- enforcing: the scope goes into the effect's transaction, or is asserted just before it
  send_scoped : Connector W → ScopePredicate → W → Settlement W
  unfolding after_probe
  send_scoped c p w =
      let trace = (row.resolved.resource +s ":" +s p.name) ∷ audit_note c.capability ∷ [] in
      if is_scoped c.capability
      then (if c.scoped
          then after_dispatch trace none Coverage.judged (dispatched ∷ [])
              (c.dispatch_scoped row.resolved row.actor row.idempotency_key p w)
          else refused_by "scope-unavailable" trace [] w)
      else after_probe c trace (c.fetch_target row.resolved p row.actor w)

  measured : Connector W → Call (Option Fields) → Option Advice × Coverage
  measured c raised =
      if is_scoped c.capability
      then (none, Coverage.unjudged)
      else (some (scope_advice "scope-unavailable"), Coverage.unjudged)
  measured c (ok (some target)) = (none, Coverage.judged)
  measured c (ok none) = (some (scope_advice "scope-lost"), Coverage.judged)

  -- advisory: the scope is measured (`_measure_dispatch_scope`) and the effect goes unscoped
  send_measured : Connector W → ScopePredicate → W → Settlement W
  unfolding send measured
  send_measured c p w =
      if is_scoped c.capability && not c.scoped
      then send c [] (some (scope_advice "scope-unavailable")) Coverage.judged [] w
      else (let (target, w') = c.fetch_target row.resolved p row.actor w in
          let (advice, coverage) = measured c target in
          send c [] advice coverage (target_fetched ∷ []) w')

  in_scope : Connector W → Option ScopePredicate → EnforcementMode → W → Settlement W
  unfolding send_scoped send_measured
  in_scope c none mode w = send c [] none Coverage.judged [] w
  in_scope c (some p) EnforcementMode.enforced w = send_scoped c p w
  in_scope c (some p) EnforcementMode.advisory w = send_measured c p w

  pinned_apart : Connector W → Option String → Bool
  pinned_apart c none = false
  pinned_apart c (some digest) = not (c.digest_matches digest)

  run_with : Call (Connector W) → W → Settlement W
  unfolding in_scope pinned_apart failed_dispatch refused_by
  run_with raised w = failed_dispatch [] w
  run_with (ok c) w =
      if pinned_apart c row.resolved.connector_digest
      then refused_by "connector-digest-mismatch" [] [] w
      else in_scope c (d.scope_for row.resolved.resource) row.enforcement w

  -- `_run_claimed`, for the row that was claimed
  unfoldable pub run_claimed : W → Settlement W
  unfolding run_with
  run_claimed w = run_with (d.connector row.resolved.connector) w
