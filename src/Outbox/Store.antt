-- ===== src/Outbox/Store.antt =====
-- stonefold_store/outbox_memory.py: the staged rows and their lifecycle. Ids, idempotency keys and
-- instants, which uuid4 and the clock give, are arguments.
pub mod Claim
pub mod Dispatches
pub mod Listed
pub mod Idle
pub mod Checked
use stonefold.Prelude.{
  ℕ, ◌+◌, String, Bool, true, false, not, Option, none, some, List, [], ◌∷◌, ◌++◌, if◌then◌else◌,
  str_eq, ◌+s◌, or_else,
}
use stonefold.Values.{Fields}
use stonefold.Models.Enums.{Decision, EnforcementMode, Coverage, FeedbackLevel}
use stonefold.Models.Records.{
  ResolvedAction, Actor, Session, RawCall, GateResult, ApprovalSpec, ReleaseContract, Compensation,
  ObligationClaim, AuditRecord, EvalResult, Consumption,
}
use stonefold.Reasons.{classify}
use stonefold.Audit.{build_record}
use stonefold.Outbox.{PendingState, PendingAction, is_pending_approval, is_pending, releases_audit}
use stonefold.Outbox.Release.{
  Released, released, refused, apply_release, ReleaseError, not_awaiting,
}

-- `_rows` by ticket, `_order` in stage order; `audited` is whether the store has an audit sink.
pub record OutboxStore : Type 0 where
  pub rows : List (String × PendingAction)
  pub order : List String
  pub audited : Bool

-- What `stage` is told; the store adds the id, the key and the instants.
pub record StageRequest : Type 0 where
  pub resolved : ResolvedAction
  pub actor : Actor
  pub session_id : String
  pub agent : String
  pub state : PendingState
  pub correlation_id : Option String
  pub gates : List GateResult
  pub approval : Option ApprovalSpec
  pub releases : List ReleaseContract
  pub compensation : Option Compensation
  pub expires_at : Option ℕ
  pub staged_at : Option ℕ
  pub obligation : Option ObligationClaim
  pub enforcement : EnforcementMode

unfoldable pub build_pending : StageRequest → String → String → ℕ → PendingAction
build_pending q id key wall_clock =
    let now = or_else q.staged_at wall_clock in
    record {
      id = id;
      idempotency_key = key;
      state = q.state;
      agent = q.agent;
      resolved = q.resolved;
      actor = q.actor;
      session_id = q.session_id;
      correlation_id = q.correlation_id;
      gates = q.gates;
      approval = q.approval;
      approvals = [];
      attempts = 1;
      releases = q.releases;
      compensation = q.compensation;
      obligation = q.obligation;
      enforcement = q.enforcement;
      reason = none;
      expires_at = q.expires_at;
      created_at = now;
      updated_at = now;
    }

unfoldable pub row_at : List (String × PendingAction) → String → Option PendingAction
row_at [] id = none
row_at ((i, r) ∷ rest) id = let later = row_at rest id in if str_eq i id then some r else later

unfoldable pub set_row :
    List (String × PendingAction) → String → PendingAction → List (String × PendingAction)
set_row [] id r = (id, r) ∷ []
set_row ((i, q) ∷ rest) id r =
    let later = set_row rest id r in if str_eq i id then (i, r) ∷ rest else (i, q) ∷ later

unfoldable pub stage :
    OutboxStore → StageRequest → String → String → ℕ → OutboxStore × PendingAction
stage s q id key wall_clock =
    let row = build_pending q id key wall_clock in
    (record s { rows = set_row s.rows id row; order = s.order ++ id ∷ [] }, row)

list_rows : (PendingState → Bool) → List (String × PendingAction) → List String → List PendingAction
list_rows in_state rows [] = []
list_rows in_state rows (id ∷ ids) =
    let later = list_rows in_state rows ids in
    elim (row_at rows id) [ none ↦ later | some r ↦ if in_state r.state then r ∷ later else later ]

-- `list_by_state`, at the test for the state
unfoldable pub list_by_state : OutboxStore → (PendingState → Bool) → List PendingAction
unfolding list_rows
list_by_state s in_state = list_rows in_state s.rows s.order

-- What the dispatch worker is told of one row of a cancellation (core/outbox.py)
unfoldable pub cancellation_record : PendingAction → String → AuditRecord
cancellation_record row reason =
    let (reason_code, retry_class) = classify Decision.deny reason row.gates in
    let result : EvalResult = record {
      decision = Decision.deny;
      rule = reason;
      gates = row.gates;
      reason_code = reason_code;
      retry_class = retry_class;
      feedback = FeedbackLevel.code_fields;
      ticket = some row.id;
      output = none;
      scope_applied = [];
      items = [];
      applied = [];
    } in
    let session : Session = record { id = row.session_id; correlation_id = row.correlation_id } in
    let call : RawCall = record {
      resource = row.resolved.resource;
      action = row.resolved.action;
      payload = row.resolved.payload;
    } in
    let consumption : Option Consumption = elim row.obligation [
      | none ↦ none
      | some claim ↦ some (record { state = "released"; claim = claim; receipt = none })
    ] in
    build_record row.agent row.actor session call (some row.resolved) result "cancelled"
      (releases_audit row "cancelled") [] consumption row.enforcement none Coverage.judged none

unfoldable pub cancel : PendingAction → String → ℕ → PendingAction
cancel row reason now = record row {
  state = PendingState.cancelled;
  reason = some reason;
  updated_at = now;
}

-- An operation that may raise: UnknownTicketError, or an ApprovalError.
pub data StoreError : Type 0 where
  unknown_ticket : StoreError
  approval_error : ReleaseError → StoreError

pub data StoreResult : Type 0 where
  stored : OutboxStore → PendingAction → StoreResult
  store_error : StoreError → StoreResult

write_row : OutboxStore → String → PendingAction → StoreResult
write_row s id row = stored (record s { rows = set_row s.rows id row }) row

-- the record is written when both it and a sink are there
abbrev pub written : OutboxStore → Option AuditRecord → List AuditRecord
written s none = []
written s (some r) = if s.audited then r ∷ [] else []

-- `settle`, which asks nothing of the row's present state
unfoldable pub settle : OutboxStore → String → PendingState → Option String → ℕ → StoreResult
unfolding write_row
settle s id state reason now = elim (row_at s.rows id) [
  | none ↦ store_error unknown_ticket
  | some row ↦ write_row s id (record row { state = state; reason = reason; updated_at = now })
]

write_released : OutboxStore → String → ℕ → Released → StoreResult
unfolding write_row
write_released s id now (refused e) = store_error (approval_error e)
write_released s id now (released row) = write_row s id (record row { updated_at = now })

unfoldable pub approve : OutboxStore → String → String → Option String → ℕ → StoreResult
unfolding write_released
approve s id approver_id gate now = elim (row_at s.rows id) [
  | none ↦ store_error unknown_ticket
  | some row ↦ write_released s id now (apply_release row approver_id gate)
]

unfoldable pub reject : OutboxStore → String → String → ℕ → StoreResult
unfolding write_row
reject s id approver_id now = elim (row_at s.rows id) [
  | none ↦ store_error unknown_ticket
  | some row ↦
      if not (is_pending_approval row.state)
      then store_error (approval_error not_awaiting)
      else write_row s id (cancel row ("rejected by " +s approver_id) now)
]

unfoldable pub bump_attempts : OutboxStore → String → ℕ → StoreResult
unfolding write_row
bump_attempts s id now = elim (row_at s.rows id) [
  | none ↦ store_error unknown_ticket
  | some row ↦
      if not (is_pending_approval row.state)
      then store_error (approval_error not_awaiting)
      else write_row s id (record row { attempts = row.attempts + 1; updated_at = now })
]
