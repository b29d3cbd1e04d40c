-- ===== src/Examples/Dispatches.antt =====
-- A claimed payment that its connector delivers, a drain that finds one payment stale beside one that
-- is ready, and what agents see of a refusal.
use stonefold.Prelude.{◌≢◌, ◌≡◌, refl, ℕ, ◌+◌, true, false, none, some, [], ◌∷◌}
use stonefold.Values.{empty, field, Value}
use stonefold.Models.Enums.{Decision, FeedbackLevel}
use stonefold.Models.Records.{Capability, GateResult, EvalResult}
use stonefold.Failure.{ok}
use stonefold.Obligation.{ReserveOutcome, ReleaseOutcome, consumed}
use stonefold.Outbox.{PendingAction}
use stonefold.Outbox.Store.{cancel, list_by_state, row_at, set_row, settle}
use stonefold.Outbox.Store.Claim.{fate, claim_ids, claim_next_pending}
use stonefold.Outbox.Store.Listed.{IsDistinct}
use stonefold.Pipeline.{Adapter}
use stonefold.Dispatch.{Connector, Worker, window, delivered}
use stonefold.Dispatch.Claimed.{run_claimed}
use stonefold.Dispatch.Sweep.{lapsed, sweep_expired_holds, sweep_rows}
use stonefold.Dispatch.Loop.{claim_next, swept, swept_state, claim_and_run, run_once, drain}
use stonefold.Dispatch.Service.{
  default_kill_check, Service, Running, stale_check, guard_check, guard_reason, release_terminal,
  release_terminal_claims, release_rows,
}
use stonefold.Outbox.Store.Dispatches.{taken}
use stonefold.Dispatch.Loop.Current.{IsCurrent, claim_next-IsCurrent}
use stonefold.Kill.{scope_matches}
use stonefold.Kill.Store.{no_orders, matches}
use stonefold.Kill.Store.Standing.{run}
use stonefold.Examples.Kills.{everywhere, killed, no_predicates, traffic}
use stonefold.Dispatch.Loop.Halted.{halted-is_not_claimed}
use stonefold.Dispatch.Loop.Claims.{StrandsNone, IsReleaseRun, run_once-StrandsNone}
use stonefold.Dispatch.Loop.Drained.{IsDrained, drain-IsDrained}
use stonefold.Feedback.{agent_view}
use stonefold.Feedback.Laws.{none_left, same_but, any_evidence, agent_view-hides}
use stonefold.Examples.Fixtures.{ready_row}
use stonefold.Examples.Verdicts.{rate_failure, paid}

abbrev bank : Connector ℕ
bank = record {
  capability = window "2s";
  scoped = false;
  digest_matches = λ digest. true;
  fetch_target = λ a p actor w. (ok (some empty), w);
  dispatch =
      λ a actor key w. (delivered (record { receipt = none; result_refs = "p1" ∷ [] }), w + 1);
  dispatch_scoped =
      λ a actor key p w. (delivered (record { receipt = none; result_refs = [] }), w + 1);
}

abbrev worker : Worker ℕ
worker = record {
  connector = λ name. ok bank;
  scope_for = λ resource. some (record { name = "own"; matches = λ attrs actor. ok true });
  obligations = λ name. none;
  resolve = none;
  text = record { repr = λ v. ""; dumps = λ d. "" };
}

-- the same failure with other evidence
abbrev other_failure : GateResult
other_failure = record rate_failure {
  reason = "limit 5 per hour";
  evidence = some (field "limit" (Value.str "5") empty);
}

abbrev seen : EvalResult
seen = record paid { decision = Decision.deny; gates = rate_failure ∷ [] }

abbrev told : EvalResult
told = record paid { decision = Decision.deny; gates = other_failure ∷ [] }

agent_view-hides_example :
    agent_view seen (some FeedbackLevel.code_fields)
    ≡ agent_view told (some FeedbackLevel.code_fields)
agent_view-hides_example = agent_view-hides seen told FeedbackLevel.code_fields (
    any_evidence (other_failure ∷ [])
      (same_but rate_failure other_failure refl refl refl refl refl refl none_left) refl)

-- a worker that releases a claim by moving its world on by ten
abbrev ledger : Adapter ℕ
ledger = record {
  reserve = λ ref intent w. (ok ReserveOutcome.reserved, w);
  release = λ ref intent w. (ok ReleaseOutcome.released, w + 10);
  consume = λ ref intent w. (ok (consumed none), w);
}

abbrev service : Service ℕ
service = record {
  worker = record worker { obligations = λ name. some ledger };
  kill = some (λ w t. none);
  clock = λ w. w + 50;
  wall = λ w. w + 51;
  revalidate = some (λ row now w. (none, w + 1));
  fresh = λ w. (("t9", "k9"), w);
}

-- a decision that is no longer fresh, with a claim on an invoice
abbrev stale_row : PendingAction
stale_row = record (ready_row "t1") {
  expires_at = some 40;
  obligation = some (record {
    registry = "invoices";
    ref = "i7";
    consume = "once";
    capability = Capability.window;
    intent_id = "n1";
  });
}

abbrev before : Running ℕ
before = record {
  store = record {
    rows = ("t1", stale_row) ∷ ("t2", ready_row "t2") ∷ [];
    order = "t1" ∷ "t2" ∷ [];
    audited = true;
  };
  records = [];
  released = [];
  world = 0;
}

claims : (claim_next service none before).claimed ≡ some (taken (ready_row "t2") 51)
unfolding claim_next claim_next_pending claim_ids fate stale_check guard_check guard_reason
    default_kill_check row_at set_row cancel lapsed
claims = refl

claim_next-IsCurrent_example : IsCurrent service before (taken (ready_row "t2") 51)
claim_next-IsCurrent_example =
    claim_next-IsCurrent service before (taken (ready_row "t2") 51) claims

-- the service under a kill store that holds a global order
abbrev halting : Service ℕ
halting = record service { kill = some (λ w. matches no_predicates (run killed traffic)) }

halted-is_not_claimed_example :
    (claim_next halting none before).claimed ≢ some (taken (ready_row "t2") 51)
halted-is_not_claimed_example =
    halted-is_not_claimed halting no_predicates (λ w. run killed traffic) refl no_orders "k1" 5
      everywhere "ops" traffic before (taken (ready_row "t2") 51) refl (refl, (refl, tt))
      (unfold scope_matches in refl)

sweeps : (swept service before).error ≡ none
unfolding sweep_expired_holds sweep_rows list_by_state row_at
sweeps = refl

run_once-StrandsNone_example :
    let first = release_terminal service.worker (swept_state service before) in
    let last = (run_once service none before).state in
    StrandsNone last
    × IsReleaseRun service.worker (swept_state service before) first
    × IsReleaseRun service.worker (claim_and_run service none first).state last
run_once-StrandsNone_example =
    run_once-StrandsNone service none before (unfold IsDistinct in tt) sweeps

drains : (drain service none 5 before).value ≡ some 1
unfolding drain run_once sweep_expired_holds sweep_rows list_by_state row_at claim_next
    claim_next_pending claim_ids release_terminal release_terminal_claims release_rows fate
    stale_check guard_check guard_reason lapsed set_row settle run_claimed cancel
drains = refl

drain-IsDrained_example : IsDrained 5 1 before (drain service none 5 before).state
drain-IsDrained_example = drain-IsDrained service none 5 before 1 drains
