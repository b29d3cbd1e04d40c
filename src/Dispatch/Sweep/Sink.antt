-- ===== src/Dispatch/Sweep/Sink.antt =====
-- The sweep leaves the store with the audit sink that it has.
use stonefold.Prelude.{ℕ, ◌≡◌, refl, ◌∙◌, String, List, [], ◌∷◌}
use stonefold.Models.Records.{AuditRecord}
use stonefold.Outbox.{PendingAction, is_pending_approval}
use stonefold.Outbox.Store.{OutboxStore, StoreResult, list_by_state}
use stonefold.Dispatch.Sweep.{
  Deed, leave, overflows, expire, credit_timeout, deed, stored_or, cancel_hold, sweep_row,
  sweep_rows, sweep_expired_holds,
}
use stonefold.Dispatch.Sweep.Expiry.{
  Writes, wrote, failed, settle-Writes, approve-Writes, then_sweep-keeps,
}

stored_or-audited :
    (s : OutboxStore) (i : String) (rs : List AuditRecord) {x : StoreResult}
    → Writes s i x
    → (stored_or s rs x).store.audited ≡ s.audited
unfolding stored_or
stored_or-audited s i rs (wrote r) = refl
stored_or-audited s i rs (failed e) = refl

sweep_row-audited :
    (wall : ℕ) (row : PendingAction) (d : Deed) (s : OutboxStore)
    → (sweep_row wall row d s).store.audited ≡ s.audited
unfolding sweep_row cancel_hold
sweep_row-audited wall row leave s = refl
sweep_row-audited wall row overflows s = refl
sweep_row-audited wall row (expire gate) s =
    stored_or-audited s row.id _ (settle-Writes s row.id _ _ wall)
sweep_row-audited wall row (credit_timeout gate) s =
    stored_or-audited s row.id [] (approve-Writes s row.id _ _ wall)

sweep_rows-audited :
    (now wall : ℕ) (rows : List PendingAction) (s : OutboxStore)
    → (sweep_rows now wall rows s).store.audited ≡ s.audited
unfolding sweep_rows
sweep_rows-audited now wall [] s = refl
sweep_rows-audited now wall (row ∷ rows) s =
    let first = sweep_row wall row (deed now row) s in
    let kept = sweep_row-audited wall row (deed now row) s in
    then_sweep-keeps (λ o. o.audited ≡ s.audited) first (sweep_rows now wall rows first.store) kept
      (sweep_rows-audited now wall rows first.store ∙ kept)

pub sweep-audited :
    (now wall : ℕ) (s : OutboxStore) → (sweep_expired_holds now wall s).store.audited ≡ s.audited
unfolding sweep_expired_holds
sweep-audited now wall s = sweep_rows-audited now wall (list_by_state s is_pending_approval) s
