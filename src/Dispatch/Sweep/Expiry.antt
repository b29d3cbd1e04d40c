-- ===== src/Dispatch/Sweep/Expiry.antt =====
-- The sweep expires every lapsed hold, and leaves alone what is not held.
use stonefold.Prelude.{
  ℕ, ◌≡◌, refl, ◌∙◌, String, true, false, Bool-cases, Option-cases, inl, inr, Option, none, some,
  ◌⊎◌, List, [], ◌∷◌, str_eq, eq_iff, arith, All, any,
}
use stonefold.Models.Records.{AuditRecord}
use stonefold.Outbox.{PendingState, PendingAction}
use stonefold.Outbox.Store.{
  OutboxStore, StoreResult, stored, store_error, StoreError, unknown_ticket, row_at, set_row,
  settle, approve,
}
use stonefold.Outbox.Store.Dispatches.{row_at-set_row}
use stonefold.Outbox.Release.{ReleaseError, Released, released, refused, apply_release}
use stonefold.Dispatch.Sweep.{
  Deed, leave, overflows, expire, credit_timeout, deed, Swept, stored_or, cancel_hold, sweep_row,
  sweep_rows, then_sweep, expired_hold_reason,
}

pub Released-cases :
    (x : Released)
    → ((e : ReleaseError) × (x ≡ refused e)) ⊎ ((r : PendingAction) × (x ≡ released r))
Released-cases (refused e) = inl (e, refl)
Released-cases (released r) = inr (r, refl)

pub data Writes (s : OutboxStore) (i : String) : StoreResult → Type 0 where
  wrote : (r : PendingAction) → Writes s i (stored (record s { rows = set_row s.rows i r }) r)
  failed : (e : StoreError) → Writes s i (store_error e)

pub settle-Writes :
    (s : OutboxStore) (i : String) (state : PendingState) (reason : Option String) (wall : ℕ)
    → Writes s i (settle s i state reason wall)
unfolding settle
settle-Writes s i state reason wall = elim (Option-cases (row_at s.rows i)) [
  | inl e ↦ rw (settle, e) (failed unknown_ticket)
  | inr (row, e) ↦ rw (settle, e) (wrote _)
]

pub approve-Writes :
    (s : OutboxStore) (i who : String) (gate : Option String) (wall : ℕ)
    → Writes s i (approve s i who gate wall)
unfolding approve
approve-Writes s i who gate wall = elim (Option-cases (row_at s.rows i)) [
  | inl e ↦ rw (approve, e) (failed unknown_ticket)
  | inr (row, e) ↦ elim (Released-cases (apply_release row who gate)) [
    | inl (r, f) ↦ rw (approve, e, f) (failed _)
    | inr (r, f) ↦ rw (approve, e, f) (wrote _)
  ]
]

stored_or-spares :
    (s : OutboxStore) (i id : String) (rs : List AuditRecord) {x : StoreResult}
    → Writes s i x
    → str_eq i id ≡ false
    → row_at (stored_or s rs x).store.rows id ≡ row_at s.rows id
unfolding stored_or
stored_or-spares s i id rs (wrote r) other = ground (arith, row_at-set_row s.rows i id r)
stored_or-spares s i id rs (failed e) other = refl

pub sweep_row-spares :
    (wall : ℕ) (row : PendingAction) (d : Deed) (s : OutboxStore) (id : String)
    → str_eq row.id id ≡ false
    → row_at (sweep_row wall row d s).store.rows id ≡ row_at s.rows id
unfolding sweep_row cancel_hold
sweep_row-spares wall row leave s id other = refl
sweep_row-spares wall row overflows s id other = refl
sweep_row-spares wall row (expire gate) s id other =
    stored_or-spares s row.id id _ (settle-Writes s row.id _ _ wall) other
sweep_row-spares wall row (credit_timeout gate) s id other =
    stored_or-spares s row.id id [] (approve-Writes s row.id _ _ wall) other

-- what holds of the store of the first part and of the second holds at the end
pub then_sweep-keeps :
    (P : OutboxStore → Type 0) (first rest : Swept)
    → P first.store
    → P rest.store
    → P (then_sweep first rest).store
unfolding then_sweep
then_sweep-keeps P first rest a b = elim (Option-cases first.error) [
  | inl e ↦ rw (then_sweep, e) b
  | inr (x, e) ↦ rw (then_sweep, e) a
]

pub sweep_rows-spares :
    (now wall : ℕ) (rows : List PendingAction) (s : OutboxStore) (id : String)
    → All (λ (q : PendingAction). str_eq q.id id ≡ false) rows
    → row_at (sweep_rows now wall rows s).store.rows id ≡ row_at s.rows id
unfolding sweep_rows
sweep_rows-spares now wall [] s id h = refl
sweep_rows-spares now wall (row ∷ rows) s id (h, hs) =
    let first = sweep_row wall row (deed now row) s in
    let spared = sweep_row-spares wall row (deed now row) s id h in
    then_sweep-keeps (λ o. row_at o.rows id ≡ row_at s.rows id) first
      (sweep_rows now wall rows first.store) spared
      (sweep_rows-spares now wall rows first.store id hs ∙ spared)

-- The row of the ticket was cancelled as an expired hold.
pub record IsExpired (id gate : String) (s : OutboxStore) : Type 0 where
  pub row : PendingAction
  pub there : row_at s.rows id ≡ some row
  pub is_cancelled : row.state ≡ PendingState.cancelled
  pub told : row.reason ≡ some (expired_hold_reason gate)

IsExpired-same :
    {id gate : String} {s s' : OutboxStore}
    → row_at s'.rows id ≡ row_at s.rows id
    → IsExpired id gate s
    → IsExpired id gate s'
IsExpired-same same x = record {
  row = x.row;
  there = same ∙ x.there;
  is_cancelled = x.is_cancelled;
  told = x.told;
}

-- the ticket has a row
abbrev IsStaged : OutboxStore → String → Type 0
IsStaged s id = (r : PendingAction) × (row_at s.rows id ≡ some r)

settled-expires :
    (s : OutboxStore) (id gate : String) (wall : ℕ) (rs : List AuditRecord)
    → IsStaged s id
    → IsExpired id gate (
        (stored_or s rs
          (settle s id PendingState.cancelled (some (expired_hold_reason gate)) wall)).store)
unfolding stored_or settle
settled-expires s id gate wall rs (r, e) =
    rw (settle, e)
      (record {
        row = record r {
          state = PendingState.cancelled;
          reason = some (expired_hold_reason gate);
          updated_at = wall;
        };
        there = rw (row_at-set_row s.rows id id _, (eq_iff id id).1 refl) refl;
        is_cancelled = refl;
        told = refl;
      })

sweep_row-expires :
    (wall : ℕ) (q : PendingAction) (s : OutboxStore) (id gate : String)
    → str_eq q.id id ≡ true
    → IsStaged s id
    → IsExpired id gate (sweep_row wall q (expire gate) s).store
unfolding sweep_row cancel_hold
sweep_row-expires wall q s id gate same staged =
    rw ((eq_iff q.id id).0 same) (settled-expires s id gate wall _ staged)

-- Each row of the ticket among those that the sweep goes through is to expire under the gate.
abbrev IsDue : ℕ → String → String → List PendingAction → Type 0
IsDue now id gate rows =
    All (λ (q : PendingAction). str_eq q.id id ≡ true → deed now q ≡ expire gate) rows

sweep_row-still :
    (now wall : ℕ) (q : PendingAction) (s : OutboxStore) (id gate : String)
    → (str_eq q.id id ≡ true → deed now q ≡ expire gate)
    → IsExpired id gate s
    → IsExpired id gate (sweep_row wall q (deed now q) s).store
sweep_row-still now wall q s id gate h x = elim (Bool-cases (str_eq q.id id)) [
  | inl same ↦ rw (h same) (sweep_row-expires wall q s id gate same (x.row, x.there))
  | inr other ↦ IsExpired-same (sweep_row-spares wall q (deed now q) s id other) x
]

sweep_rows-still :
    (now wall : ℕ) (rows : List PendingAction) (s : OutboxStore) (id gate : String)
    → IsDue now id gate rows
    → IsExpired id gate s
    → IsExpired id gate (sweep_rows now wall rows s).store
unfolding sweep_rows
sweep_rows-still now wall [] s id gate h x = x
sweep_rows-still now wall (q ∷ rows) s id gate (h, hs) x =
    let first = sweep_row wall q (deed now q) s in
    let x' = sweep_row-still now wall q s id gate h x in
    then_sweep-keeps (IsExpired id gate) first (sweep_rows now wall rows first.store) x'
      (sweep_rows-still now wall rows first.store id gate hs x')

then_sweep-completes :
    (first rest : Swept)
    → (then_sweep first rest).error ≡ none
    → (first.error ≡ none) × (rest.error ≡ none) × ((then_sweep first rest).store ≡ rest.store)
unfolding then_sweep
then_sweep-completes first rest h = elim (Option-cases first.error) [
  | inl e ↦ (e, ground (arith, e, h), rw (then_sweep, e) refl)
  | inr (x, e) ↦ absurd (ground (arith, e))
]

pub sweep_rows-expires :
    (now wall : ℕ) (rows : List PendingAction) (s : OutboxStore) (id gate : String)
    → IsDue now id gate rows
    → IsStaged s id
    → any (λ (q : PendingAction). str_eq q.id id) rows ≡ true
    → (sweep_rows now wall rows s).error ≡ none
    → IsExpired id gate (sweep_rows now wall rows s).store
unfolding sweep_rows
sweep_rows-expires now wall [] s id gate h staged listed done = absurd (ground arith)
sweep_rows-expires now wall (q ∷ rows) s id gate (h, hs) staged listed done =
    let first = sweep_row wall q (deed now q) s in
    let rest = sweep_rows now wall rows first.store in
    let (_, ended, store) = then_sweep-completes first rest done in
    rw store (elim (Bool-cases (str_eq q.id id)) [
      | inl same ↦
          sweep_rows-still now wall rows first.store id gate hs
            (rw (h same) (sweep_row-expires wall q s id gate same staged))
      | inr other ↦
          sweep_rows-expires now wall rows first.store id gate hs
            (staged.0, sweep_row-spares wall q (deed now q) s id other ∙ staged.1)
            (ground (arith, other, listed)) ended
    ])
