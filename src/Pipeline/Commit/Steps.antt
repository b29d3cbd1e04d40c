-- ===== src/Pipeline/Commit/Steps.antt =====
-- The three ways to commit: a hold is staged for release, an effect is staged for dispatch, and the
-- other kinds run through their connector.
pub mod Staged
pub mod Laws
use stonefold.Prelude.{
  ℕ, String, Bool, true, false, Option, none, some, List, [], if◌then◌else◌, ◌&&◌,
}
use stonefold.Values.{Fields}
use stonefold.Models.Enums.{Kind, Decision, kind_eq, is_effect, is_refusal, is_hold}
use stonefold.Models.Records.{
  ResolvedAction, Actor, Session, RequestEnv, ObligationClaim, Output, EvalResult, Consumption,
  ScopeWouldRemove, ReleaseContract, ApprovalSpec, Compensation,
}
use stonefold.Failure.{Call, ok, raised, should_fail_closed}
use stonefold.Outbox.{PendingState, PendingAction}
use stonefold.Outbox.Store.{StageRequest}
use stonefold.Pipeline.{
  Event, executed, bumped, staged, Act, ◌>>=◌, return, raise, ask, Connectors, Outbox, Deps,
  Decided, Sink, agent_name, failure_mode, ScopeMeasure,
}
use stonefold.Pipeline.Claims.{audit_dict, release_claim, consume_claim}
use stonefold.Pipeline.Advised.{measure_scope}
use stonefold.Pipeline.Commit.{
  Ending, ending_of, Holding, holding, unreserved, approval_audit, staging_expiry, now_of, terminal,
  ends, denied, allowed, find_duplicate_hold, claim_for,
}

reserved_audit : Option ObligationClaim → Option Consumption
reserved_audit none = none
reserved_audit (some c) = some (audit_dict "reserved" c none)

module _ {W : Type 0} (d : Deps W) (sink : Sink) (actor : Actor) (session : Session)
    (env : Option RequestEnv) (k : Decided) (a : ResolvedAction) where
  -- the keyword arguments of `ob.stage`
  unfoldable pub stage_request :
      PendingState
      → Option ApprovalSpec
      → List ReleaseContract
      → Option Compensation
      → Option ℕ
      → Option ObligationClaim
      → StageRequest
  stage_request state approval releases compensation expiry claim = record {
    resolved = a;
    actor = actor;
    session_id = session.id;
    agent = agent_name d;
    state = state;
    correlation_id = session.correlation_id;
    gates = k.gate_results;
    approval = approval;
    releases = releases;
    compensation = compensation;
    expires_at = expiry;
    staged_at = now_of env;
    obligation = claim;
    enforcement = d.enforcement;
  }

  -- the staging failed: the reservation is returned, and the call is refused
  unstaged : Option ObligationClaim → Act W EvalResult
  unstaged claim =
      release_claim d claim >>= (λ _. denied d sink actor session k a "outbox-unavailable")

  hold_ends : Option String → Option Consumption → String → Act W EvalResult
  hold_ends ticket consumption outcome =
      ends d sink actor session k a Decision.hold k.rule (record (ending_of k) {
        ticket = ticket;
        outcome = outcome;
        approval = approval_audit k.approval ticket k.releases;
        consumption = consumption;
      })

  hold_staged : Option ObligationClaim → Call String → Act W EvalResult
  unfolding unstaged hold_ends reserved_audit
  hold_staged claim raised = unstaged claim
  hold_staged claim (ok ticket) = hold_ends (some ticket) (reserved_audit claim) "not_executed"

  stage_hold : Outbox W → Option ℕ → Holding → Act W EvalResult
  unfolding hold_staged
  stage_hold ob expiry (unreserved rule) = denied d sink actor session k a rule
  stage_hold ob expiry (holding claim) =
      let q = stage_request PendingState.pending_approval k.approval k.releases none expiry claim in
      ask (staged q) (ob.stage q) >>= hold_staged claim

  -- no duplicate, or its row was settled in between
  new_hold : Outbox W → Call (Option ℕ) → Act W EvalResult
  unfolding stage_hold
  new_hold ob raised = denied d sink actor session k a "freshness-unavailable"
  new_hold ob (ok at) = claim_for d sink actor session env k >>= stage_hold ob at

  bumped_hold : Outbox W → PendingAction → Call PendingAction → Act W EvalResult
  unfolding hold_ends new_hold
  bumped_hold ob row raised = new_hold ob (staging_expiry d.freshness env a)
  bumped_hold ob row (ok row') = hold_ends (some row.id) none "hold-deduped"

  deduped_hold : Outbox W → Option PendingAction → Act W EvalResult
  unfolding bumped_hold new_hold
  deduped_hold ob none = new_hold ob (staging_expiry d.freshness env a)
  deduped_hold ob (some row) = ask (bumped row.id) (ob.bump_attempts row.id) >>= bumped_hold ob row

  pub commit_hold : Option (Outbox W) → Act W EvalResult
  unfolding hold_ends deduped_hold
  commit_hold none = hold_ends none none "not_executed"
  commit_hold (some ob) = find_duplicate_hold d sink actor session env ob k a >>= deduped_hold ob

  effect_staged : Option ObligationClaim → Call String → Act W EvalResult
  unfolding unstaged reserved_audit
  effect_staged claim raised = unstaged claim
  effect_staged claim (ok ticket) =
      ends d sink actor session k a Decision.allow k.rule (record (ending_of k) {
        ticket = some ticket;
        outcome = "staged";
        consumption = reserved_audit claim;
      })

  stage_effect : Outbox W → Option ℕ → Holding → Act W EvalResult
  unfolding effect_staged
  stage_effect ob expiry (unreserved rule) = denied d sink actor session k a rule
  stage_effect ob expiry (holding claim) =
      let q = stage_request PendingState.pending none [] a.compensation expiry claim in
      ask (staged q) (ob.stage q) >>= effect_staged claim

  new_effect : Outbox W → Call (Option ℕ) → Act W EvalResult
  unfolding stage_effect
  new_effect ob raised = denied d sink actor session k a "freshness-unavailable"
  new_effect ob (ok at) = claim_for d sink actor session env k >>= stage_effect ob at

  pub commit_effect : Option (Outbox W) → Act W EvalResult
  unfolding new_effect
  commit_effect none = allowed d sink actor session k a
  commit_effect (some ob) = new_effect ob (staging_expiry d.freshness env a)

  -- a dependency of the execution failed: failureMode, with the irreversible floor
  degraded : String → Act W EvalResult
  degraded rule =
      if should_fail_closed (some a) (failure_mode d)
      then denied d sink actor session k a rule
      else allowed d sink actor session k a

  would_remove : Output → Option ScopeWouldRemove
  would_remove output = elim k.scope_measure [
    | none ↦ none
    | some m ↦ if kind_eq a.kind Kind.observe then some (measure_scope m output actor) else none
  ]

  succeeded : Output → Option Consumption → Act W EvalResult
  unfolding would_remove
  succeeded output consumption =
      ends d sink actor session k a Decision.allow k.rule (record (ending_of k) {
        output = some output;
        outcome = "success";
        consumption = consumption;
        scope_would_remove = would_remove output;
      })

  inline_done : Option ObligationClaim → Call Output → Act W EvalResult
  unfolding degraded succeeded
  inline_done claim raised = release_claim d claim >>= (λ _. degraded "connector-unavailable")
  inline_done claim (ok output) = consume_claim d claim >>= succeeded output

  run_inline : Connectors W → Holding → Act W EvalResult
  unfolding inline_done
  run_inline c (unreserved rule) = denied d sink actor session k a rule
  run_inline c (holding claim) =
      ask (executed a) (c.execute a k.scope_pred actor) >>= inline_done claim

  commit_inline : Option (Connectors W) → Act W EvalResult
  unfolding run_inline degraded
  commit_inline none = allowed d sink actor session k a
  commit_inline (some c) =
      if c.digest_mismatch a
      then degraded "connector-digest-mismatch"
      else (claim_for d sink actor session env k >>= run_inline c)

  commit_resolved : Act W EvalResult
  unfolding commit_hold commit_effect commit_inline
  commit_resolved =
      if is_hold k.decision
      then commit_hold d.outbox
      else if is_effect a.kind
      then commit_effect d.outbox
      else commit_inline d.connectors

module _ {W : Type 0} (d : Deps W) (sink : Sink) (actor : Actor) (session : Session)
    (env : Option RequestEnv) where
  commit_at : Decided → Option ResolvedAction → Act W EvalResult
  unfolding commit_resolved
  commit_at k none = raise
  commit_at k (some a) = commit_resolved d sink actor session env k a

  -- `_commit`; the assertion that an ALLOW or a HOLD is resolved raises
  unfoldable pub commit : Decided → Act W EvalResult
  unfolding commit_at
  commit k =
      if is_refusal k.decision
      then terminal d sink actor session k.decision k.rule k.call k.resolved
          (record (ending_of k) { outcome = k.outcome })
      else commit_at k k.resolved
