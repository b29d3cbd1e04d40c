-- ===== src/Dispatch/Sweep.antt =====
-- stonefold_store/dispatch.py: the sweep over held rows whose time has passed. `now` is the worker's
-- clock, `wall` the instant at which the store writes.
pub mod Expiry
pub mod Holds
pub mod Completes
pub mod Sink
use stonefold.Prelude.{
  ◌*◌, ◌-◌, ℕ, suc, ◌+◌, String, Bool, true, false, not, Option, none, some, List, [], ◌∷◌, ◌++◌,
  if◌then◌else◌, str_eq, ◌+s◌, leb, ltb, find,
}
use stonefold.Models.Records.{ReleaseContract, AuditRecord}
use stonefold.Outbox.{
  PendingState, PendingAction, is_pending_approval, satisfied, effective_contracts,
}
use stonefold.Outbox.Store.{
  OutboxStore, StoreResult, stored, store_error, StoreError, settle, approve, list_by_state,
  cancellation_record, written,
}

unfoldable pub expired_hold_reason : String → String
expired_hold_reason gate = "expired-hold:" +s gate

-- what the sweep does with one row
pub data Deed : Type 0 where
  leave overflows : Deed
  expire credit_timeout : String → Deed

unfoldable pub lapsed : ℕ → Option ℕ → Bool
lapsed now none = false
lapsed now (some expires_at) = leb expires_at now

-- `contracts[0].gate`: a row has a contract (effective_contracts)
first_gate : List ReleaseContract → String
first_gate [] = ""
first_gate (c ∷ cs) = c.gate

unfoldable pub open_gate : List ReleaseContract → String
unfolding first_gate
open_gate cs = elim (find (λ (c : ReleaseContract). not (satisfied c)) cs) [
  | none ↦ first_gate cs
  | some c ↦ c.gate
]

-- datetime.max, in microseconds from datetime.min: the years 1 to 9999 have 3652059 days
abbrev pub last_instant : ℕ
last_instant = 3652059 * 86400000000 - 1

-- A deadline behind the last instant is an OverflowError.
unfoldable pub timed_out : ℕ → ℕ → List ReleaseContract → Deed
timed_out now created_at [] = leave
timed_out now created_at (c ∷ cs) =
    let rest = timed_out now created_at cs in
    if satisfied c then rest else elim c.timeout [
      | none ↦ rest
      | some t ↦
          if ltb last_instant (created_at + t)
          then overflows
          else if ltb now (created_at + t)
          then rest
          else if str_eq c.on_timeout "allow"
          then credit_timeout c.gate
          else expire c.gate
    ]

unfoldable pub deed : ℕ → PendingAction → Deed
unfolding lapsed
deed now row =
    let contracts = effective_contracts row in
    if lapsed now row.expires_at
    then expire (open_gate contracts)
    else timed_out now row.created_at contracts

pub data SweepError : Type 0 where
  store_raised : StoreError → SweepError
  overflow_error : SweepError

-- `handled`, or the error that ends the sweep, with the store and the records written so far
pub record Swept : Type 0 where
  pub store : OutboxStore
  pub records : List AuditRecord
  pub handled : ℕ
  pub error : Option SweepError

stored_or : OutboxStore → List AuditRecord → StoreResult → Swept
stored_or s records (stored s' row) = record {
  store = s';
  records = records;
  handled = 1;
  error = none;
}
stored_or s records (store_error e) = record {
  store = s;
  records = [];
  handled = 0;
  error = some (store_raised e);
}

unfoldable pub cancel_hold : ℕ → PendingAction → String → OutboxStore → Swept
unfolding stored_or
cancel_hold wall row reason s =
    stored_or s (written s (some (cancellation_record row reason)))
      (settle s row.id PendingState.cancelled (some reason) wall)

unfoldable pub sweep_row : ℕ → PendingAction → Deed → OutboxStore → Swept
unfolding stored_or
sweep_row wall row leave s = record { store = s; records = []; handled = 0; error = none }
sweep_row wall row overflows s = record {
  store = s;
  records = [];
  handled = 0;
  error = some overflow_error;
}
sweep_row wall row (expire gate) s = cancel_hold wall row (expired_hold_reason gate) s
sweep_row wall row (credit_timeout gate) s =
    stored_or s [] (approve s row.id "system:timeout" (some gate) wall)

pub then_sweep : Swept → Swept → Swept
then_sweep first rest = elim first.error [
  | some e ↦ first
  | none ↦ record rest {
    records = first.records ++ rest.records;
    handled = first.handled + rest.handled;
  }
]

unfoldable pub sweep_rows : ℕ → ℕ → List PendingAction → OutboxStore → Swept
unfolding then_sweep
sweep_rows now wall [] s = record { store = s; records = []; handled = 0; error = none }
sweep_rows now wall (row ∷ rows) s =
    let first = sweep_row wall row (deed now row) s in
    then_sweep first (sweep_rows now wall rows first.store)

unfoldable pub sweep_expired_holds : ℕ → ℕ → OutboxStore → Swept
sweep_expired_holds now wall s = sweep_rows now wall (list_by_state s is_pending_approval) s
