-- ===== src/Dispatch/Loop/Recorded.antt =====
-- stonefold_store/dispatch.py: a turn of the worker that handled a row has left a record of it.
use stonefold.Prelude.{
  ℕ, ◌+◌, ◌≤◌, ◌≡◌, refl, ◌∙◌, ap, Bool, true, false, Option-cases, inl, inr, Option, none, some,
  List, ◌++◌, length, length-append, arith, if◌then◌else◌,
}
use stonefold.Models.Records.{ResolvedAction, AuditRecord}
use stonefold.Failure.{Call, ok, raised}
use stonefold.Outbox.{PendingAction}
use stonefold.Outbox.Store.{OutboxStore, StoreResult, stage, set_row, written}
use stonefold.Dispatch.{Settlement}
use stonefold.Dispatch.Claimed.{run_claimed}
use stonefold.Dispatch.Sweep.Expiry.{Writes, wrote, failed, settle-Writes}
use stonefold.Dispatch.Sweep.Sink.{sweep-audited}
use stonefold.Dispatch.Loop.{
  stage_compensation, after_settle, settle_claimed, run_if_claimed, claim_next, claim_and_run,
  swept, swept_state, after_sweep, run_once,
}
use stonefold.Dispatch.Service.{Service, Running, Turn, release_terminal}

-- The store keeps its sink, which was given at least `n` records.
pub record Adds {W : Type 0} (n : ℕ) (r r' : Running W) : Type 0 where
  pub more : length r.records + n ≤ length r'.records
  pub same : r'.store.audited ≡ r.store.audited

-- what one handled row is worth in records
abbrev pub worth : Bool → Option Bool → ℕ
worth true (some true) = 1
worth _ _ = 0

worth-le : (b : Bool) (o : Option Bool) → worth b o ≤ (if b then 1 else 0)
worth-le true none = omega arith
worth-le true (some true) = omega arith
worth-le true (some false) = omega arith
worth-le false o = omega arith

worth-none : (b : Bool) → worth b none ≡ 0
worth-none true = refl
worth-none false = refl

worth-idle : (b : Bool) → worth b (some false) ≡ 0
worth-idle true = refl
worth-idle false = refl

length-written :
    (s : OutboxStore) (a : AuditRecord) → length (written s (some a)) ≡ (if s.audited then 1 else 0)
length-written s a = ground arith

module _ {W : Type 0} where
  -- a turn that handled a row left a record of it, where there is a sink
  abbrev pub IsRecorded : Running W → Turn W Bool → Type 0
  IsRecorded r turn = Adds (worth r.store.audited turn.value) r turn.state

  IsRecorded-more :
      (r r' : Running W) (more : List AuditRecord) (turn : Turn W Bool)
      → r'.records ≡ r.records ++ more
      → r'.store.audited ≡ r.store.audited
      → IsRecorded r' turn
      → IsRecorded r turn
  IsRecorded-more r r' more turn records sink a = record {
    more = omega (
      arith,
      a.more,
      ap length records,
      length-append r.records more,
      ap (λ b. worth b turn.value) sink,
    );
    same = a.same ∙ sink;
  }

  module _ (v : Service W) where
    stage_compensation-same :
        (row : PendingAction) (c : Call (Option ResolvedAction)) (r : Running W)
        → ((stage_compensation v row c r).state.records ≡ r.records)
          × ((stage_compensation v row c r).state.store.audited ≡ r.store.audited)
    unfolding stage_compensation
    stage_compensation-same row raised r = (refl, refl)
    stage_compensation-same row (ok none) r = (refl, refl)
    stage_compensation-same row (ok (some a)) r = (refl, unfold stage in refl)

    after_settle-Adds :
        (row : PendingAction) (t : Settlement W) (r : Running W) {x : StoreResult}
        → Writes r.store row.id x
        → IsRecorded r (after_settle v row t (written r.store (some t.audit)) x r)
    unfolding after_settle
    after_settle-Adds row t r (wrote q) =
        let rs = written r.store (some t.audit) in
        let r' = record r {
          store = record r.store { rows = set_row r.store.rows row.id q };
          records = r.records ++ rs;
          world = t.world;
        } in
        let (records, sink) = stage_compensation-same row t.compensation r' in
        record {
          more = omega (
            arith,
            worth-le r.store.audited (stage_compensation v row t.compensation r').value,
            length-written r.store t.audit,
            length-append r.records rs,
            ap length records,
          );
          same = sink;
        }
    after_settle-Adds row t r (failed e) = record {
      more = omega (arith, worth-none r.store.audited);
      same = refl;
    }

    run_if_claimed-Adds :
        (o : Option PendingAction) (r : Running W) → IsRecorded r (run_if_claimed v o r)
    unfolding run_if_claimed settle_claimed
    run_if_claimed-Adds none r = record {
      more = omega (arith, worth-idle r.store.audited);
      same = refl;
    }
    run_if_claimed-Adds (some row) r =
        let t = run_claimed v.worker row r.world in
        after_settle-Adds row t r (settle-Writes r.store row.id t.state t.reason (v.wall t.world))

    module _ (kill_check : Option (PendingAction → Bool)) where
      claim_and_run-Adds : (r : Running W) → IsRecorded r (claim_and_run v kill_check r)
      unfolding claim_and_run
      claim_and_run-Adds r =
          let c = claim_next v kill_check r in
          let r' = record r {
            store = record r.store { rows = c.rows };
            records = r.records ++ c.records;
            world = c.world;
          } in
          IsRecorded-more r r' c.records _ refl refl (run_if_claimed-Adds c.claimed r')

      after_sweep-Adds : (r : Running W) → IsRecorded r (after_sweep v kill_check r)
      unfolding after_sweep release_terminal
      after_sweep-Adds r =
          let a = claim_and_run-Adds (release_terminal v.worker r) in
          record { more = a.more; same = a.same }

      pub run_once-Adds : (r : Running W) → IsRecorded r (run_once v kill_check r)
      unfolding run_once
      run_once-Adds r =
          let sink = sweep-audited (v.clock r.world) (v.wall r.world) r.store in
          elim (Option-cases (swept v r).error) [
            | inl e ↦
                rw (run_once, e)
                  (IsRecorded-more r (swept_state v r) (swept v r).records _ refl sink
                    (after_sweep-Adds (swept_state v r)))
            | inr (x, e) ↦
                rw (run_once, e)
                  (IsRecorded-more r (swept_state v r) (swept v r).records _ refl sink (record {
                    more = omega (arith, worth-none (swept v r).store.audited);
                    same = refl;
                  }))
          ]
