-- ===== src/Dispatch/Loop.antt =====
-- stonefold_store/dispatch.py: one turn of the worker, and the drain. The store's operations are taken
-- to reach the store.
pub mod Current
pub mod Halted
pub mod Claims
pub mod Owed
pub mod Recorded
pub mod Drained
use stonefold.Prelude.{
  ℕ, zero, suc, ◌+◌, String, Bool, true, false, Option, none, some, List, [], ◌∷◌, ◌++◌,
  if◌then◌else◌, ◌+s◌, contains, is_some,
}
use stonefold.Models.Enums.{EnforcementMode}
use stonefold.Models.Records.{ResolvedAction, Session, GateResult, AuditRecord, ObligationClaim}
use stonefold.Failure.{Call, ok, raised}
use stonefold.Kill.{KillOrder, KillTarget, target_of}
use stonefold.Outbox.{PendingState, PendingAction}
use stonefold.Outbox.Store.{
  OutboxStore, StageRequest, StoreResult, stored, store_error, stage, settle, written,
  list_by_state,
}
use stonefold.Outbox.Store.Claim.{ClaimResult, claim_next_pending}
use stonefold.Pipeline.{Adapter}
use stonefold.Dispatch.{Worker, Settlement}
use stonefold.Dispatch.Claimed.{run_claimed}
use stonefold.Dispatch.Sweep.{Swept, lapsed, sweep_expired_holds}
use stonefold.Dispatch.Service.{Service, Running, Turn, stale_check, check_of, release_terminal}

compensation_request : PendingAction → ResolvedAction → StageRequest
compensation_request failed a = record {
  resolved = a;
  actor = failed.actor;
  session_id = failed.session_id;
  agent = failed.agent;
  state = PendingState.pending;
  correlation_id = failed.correlation_id;
  gates = [];
  approval = none;
  releases = [];
  compensation = none;
  expires_at = none;
  staged_at = none;
  obligation = none;
  enforcement = EnforcementMode.enforced;
}

unfoldable pub one_more : Option ℕ → Option ℕ
one_more none = none
one_more (some n) = some (suc n)

module _ {W : Type 0} where
  -- the compensation of a row that was settled
  unfoldable pub stage_compensation :
      Service W → PendingAction → Call (Option ResolvedAction) → Running W → Turn W Bool
  unfolding compensation_request
  stage_compensation v row raised r = record { value = none; state = r }
  stage_compensation v row (ok none) r = record { value = some true; state = r }
  stage_compensation v row (ok (some a)) r =
      let ((id, key), w') = v.fresh r.world in
      let (s', staged) = stage r.store (compensation_request row a) id key (v.wall r.world) in
      record { value = some true; state = record r { store = s'; world = w' } }

  unfoldable pub after_settle :
      Service W
      → PendingAction
      → Settlement W
      → List AuditRecord
      → StoreResult
      → Running W
      → Turn W Bool
  unfolding stage_compensation
  after_settle v row t records (store_error e) r = record {
    value = none;
    state = record r { world = t.world };
  }
  after_settle v row t records (stored s' settled) r =
      stage_compensation v row t.compensation
        (record r { store = s'; records = r.records ++ records; world = t.world })

  unfoldable pub settle_claimed : Service W → PendingAction → Running W → Turn W Bool
  unfolding after_settle
  settle_claimed v row r =
      let t = run_claimed v.worker row r.world in
      after_settle v row t (written r.store (some t.audit))
        (settle r.store row.id t.state t.reason (v.wall t.world)) r

  unfoldable pub run_if_claimed : Service W → Option PendingAction → Running W → Turn W Bool
  unfolding settle_claimed
  run_if_claimed v none r = record { value = some false; state = r }
  run_if_claimed v (some row) r = settle_claimed v row r

  -- what a turn leaves to the turns after it
  unfoldable pub go_on : Turn W Bool → Turn W ℕ → Turn W ℕ
  unfolding one_more
  go_on turn rest = elim turn.value [
    | none ↦ record { value = none; state = turn.state }
    | some b ↦
        if b
        then record rest { value = one_more rest.value }
        else record { value = some 0; state = turn.state }
  ]

  abbrev pub swept : Service W → Running W → Swept
  swept v r = sweep_expired_holds (v.clock r.world) (v.wall r.world) r.store

  abbrev pub swept_state : Service W → Running W → Running W
  swept_state v r = record r {
    store = (swept v r).store;
    records = r.records ++ (swept v r).records;
  }

  module _ (v : Service W) (kill_check : Option (PendingAction → Bool)) where
    unfoldable pub claim_next : Running W → ClaimResult W
    unfolding check_of
    claim_next r =
        claim_next_pending r.store (v.wall r.world) (check_of v kill_check r.world)
          (some (stale_check v)) r.world

    -- `_run_claimed`, the claim included
    unfoldable pub claim_and_run : Running W → Turn W Bool
    unfolding run_if_claimed
    claim_and_run r =
        let c = claim_next r in
        run_if_claimed v c.claimed (record r {
          store = record r.store { rows = c.rows };
          records = r.records ++ c.records;
          world = c.world;
        })

    unfoldable pub after_sweep : Running W → Turn W Bool
    unfolding claim_and_run
    after_sweep r =
        let turn = claim_and_run (release_terminal v.worker r) in
        record turn { state = release_terminal v.worker turn.state }

    unfoldable pub run_once : Running W → Turn W Bool
    unfolding after_sweep
    run_once r = elim (swept v r).error [
      | some e ↦ record { value = none; state = swept_state v r }
      | none ↦ after_sweep (swept_state v r)
    ]

    -- `drain`, at `max_iterations`
    unfoldable pub drain : ℕ → Running W → Turn W ℕ
    unfolding go_on
    drain zero r = record { value = some 0; state = r }
    drain (suc n) r = let turn = run_once r in let rest = drain n turn.state in go_on turn rest
