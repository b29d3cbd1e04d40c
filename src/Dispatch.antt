-- ===== src/Dispatch.antt =====
-- stonefold_store/dispatch.py: what the worker does with a row that it has claimed. The row is
-- dispatched at most once and settled once; the store's settle and stage are taken to return. The
-- registry of calls in flight, which only lets a kill reach the connector, is left out: a connector
-- that was cancelled answers so.
pub mod Claimed
pub mod Sweep
pub mod Service
pub mod Loop
use stonefold.Prelude.{
  ℕ, String, Bool, true, false, not, Option, none, some, List, [], ◌∷◌, ◌&&◌, ◌+s◌, if◌then◌else◌,
  str_eq, is_some,
}
use stonefold.Values.{Value, Fields, get, PyText, py_str}
use stonefold.Models.Enums.{
  Decision, EnforcementMode, Coverage, FeedbackLevel, Reversibility, is_irreversible,
}
use stonefold.Models.Records.{
  ResolvedAction, Actor, Session, RawCall, EvalResult, AuditRecord, Advice, Compensation,
  Consumption, ObligationClaim,
}
use stonefold.Failure.{Call, ok, raised}
use stonefold.Reasons.{classify}
use stonefold.Audit.{build_record}
use stonefold.Obligation.{ConsumeResult, consumed, already_consumed}
use stonefold.Outbox.{PendingState, PendingAction, releases_audit}
use stonefold.Outbox.Store.{StageRequest}
use stonefold.Pipeline.{ScopePredicate, Adapter}
use stonefold.Pipeline.Claims.{audit_dict}

-- `ConnectorResult` of a dispatch
pub record Delivery : Type 0 where
  pub receipt : Option Fields
  pub result_refs : List String

-- What a dispatch answers: a result, ScopeLostError, ConnectorCancelled or any other exception.
pub data Answer : Type 0 where
  delivered : Delivery → Answer
  scope_lost cancelled failed : Answer

-- `ScopeCapability`
pub data Reassertion : Type 0 where
  transactional : Reassertion
  window : String → Reassertion

-- A wired connector; `scoped` is whether it can dispatch within a scope (TransactionalDispatch).
pub record Connector (W : Type 0) : Type 0 where
  pub capability : Reassertion
  pub scoped : Bool
  pub digest_matches : String → Bool
  pub fetch_target : ResolvedAction → ScopePredicate → Actor → W → Call (Option Fields) × W
  pub dispatch : ResolvedAction → Actor → String → W → Answer × W
  pub dispatch_scoped : ResolvedAction → Actor → String → ScopePredicate → W → Answer × W

pub record Worker (W : Type 0) : Type 0 where
  pub connector : String → Call (Connector W)
  pub scope_for : String → Option ScopePredicate
  pub obligations : String → Option (Adapter W)
  pub resolve : Option (RawCall → Option ResolvedAction)
  pub text : PyText

-- What is asked of a connector or of an obligation registry.
pub data Asked : Type 0 where
  target_fetched dispatched consume_asked : Asked

-- The arguments of `store.settle`, and the compensation staged after it: `raised` is an unknown name.
pub record Settlement (W : Type 0) : Type 0 where
  pub state : PendingState
  pub reason : Option String
  pub audit : AuditRecord
  pub compensation : Call (Option ResolvedAction)
  pub asked : List Asked
  pub world : W

abbrev pub ends_badly : String → Bool
ends_badly outcome = if str_eq outcome "failure" then true else str_eq outcome "cancelled"

consumption_of : PendingAction → String → Option Consumption → Option Consumption
consumption_of row outcome (some c) = some c
consumption_of row outcome none = elim row.obligation [
  | none ↦ none
  | some claim ↦ if ends_badly outcome then some (audit_dict "released" claim none) else none
]

-- `_audit_record`
unfoldable pub audit_record :
    PendingAction
    → Decision
    → String
    → List String
    → String
    → List String
    → Option Consumption
    → Option Advice
    → Coverage
    → AuditRecord
unfolding consumption_of
audit_record row decision outcome refs rule scope_applied consumption advised coverage =
    let result : EvalResult = record {
      decision = decision;
      rule = rule;
      gates = row.gates;
      reason_code = "";
      retry_class = none;
      feedback = FeedbackLevel.code_fields;
      ticket = some row.id;
      output = none;
      scope_applied = scope_applied;
      items = [];
      applied = [];
    } in
    let session : Session = record { id = row.session_id; correlation_id = row.correlation_id } in
    let call : RawCall = record {
      resource = row.resolved.resource;
      action = row.resolved.action;
      payload = row.resolved.payload;
    } in
    build_record row.agent row.actor session call (some row.resolved) result outcome
      (releases_audit row "released") refs (consumption_of row outcome consumption) row.enforcement
      advised coverage none

-- `_scope_advice`
unfoldable pub scope_advice : String → Advice
scope_advice rule =
    let (reason_code, retry_class) = classify Decision.deny rule [] in
    record {
      decision = Decision.deny;
      rule = rule;
      reason_code = reason_code;
      retry_class = retry_class;
      dedupe_key = none;
    }

-- `_resolve_compensation`
pub compensated :
    Option (RawCall → Option ResolvedAction)
    → ResolvedAction
    → Compensation
    → Call (Option ResolvedAction)
compensated none a c = ok (
    some (record a {
      resource = c.resource;
      action = some c.action;
      payload = c.payload;
      attrs = record a.attrs { reversibility = Reversibility.compensable };
      compensation = none;
    }))
compensated (some resolve) a c =
    elim (resolve (record { resource = c.resource; action = some c.action; payload = c.payload })) [
      | none ↦ raised
      | some b ↦ ok (some b)
    ]

-- `_result_refs_of`
unfoldable pub result_refs_of : PyText → Delivery → List String
result_refs_of text r = elim r.result_refs [
  | s ∷ ss ↦ s ∷ ss
  | [] ↦ elim r.receipt [
    | none ↦ []
    | some fields ↦ elim (get fields "id") [
      | none ↦ []
      | some Value.null ↦ []
      | some v ↦ py_str text v ∷ []
    ]
  ]
]
