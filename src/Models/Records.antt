-- ===== src/Models/Records.antt =====
-- The value types of stonefold_core/models.py, gating.py and obligation.py (ObligationClaim).
-- Instants and durations are microseconds. The id and the timestamp of an audit record, which
-- `build_record` draws from uuid4 and the wall clock, are left out. A dictionary that the code
-- builds with fixed keys is a record.
use stonefold.Prelude.{ℕ, String, Bool, Option, List}
use stonefold.Values.{Value, Fields}
use stonefold.Models.Enums.{
  Kind, Decision, EnforcementMode, Coverage, Outcome, RetryClass, FeedbackLevel, Reversibility,
  Emission, OperativeForce, Explainability,
}

pub record Attributes : Type 0 where
  pub reversibility : Reversibility
  pub emission : Emission
  pub operative_force : OperativeForce
  pub result_sensitivity : String
  pub explainability : Explainability

pub record RawCall : Type 0 where
  pub resource : String
  pub action : Option String
  pub payload : Fields

pub record Compensation : Type 0 where
  pub resource : String
  pub action : String
  pub payload : Fields

pub record ItemsDef : Type 0 where
  pub field : String
  pub independent : Bool
  pub key : String
  pub max_items : Option ℕ

pub record ResolvedAction : Type 0 where
  pub kind : Kind
  pub resource : String
  pub action : Option String
  pub payload : Fields
  pub attrs : Attributes
  pub connector : String
  pub connector_digest : Option String
  pub from_states : List String
  pub items : Option ItemsDef
  pub compensation : Option Compensation

pub record Actor : Type 0 where
  pub id : String
  pub roles : List String
  pub claims : Fields

pub record Session : Type 0 where
  pub id : String
  pub correlation_id : Option String

pub record GateResult : Type 0 where
  pub gate : String
  pub outcome : Outcome
  pub reason : String
  pub code : String
  pub source : String
  pub evidence : Option Fields
  pub retry_class : Option RetryClass
  pub fields : List String

pub record RequestEnv : Type 0 where
  pub resource : Fields
  pub context : Fields
  pub now : Option ℕ
  pub sink : Option String
  pub cost : Option ℕ

pub record ApprovalSpec : Type 0 where
  pub quorum : ℕ
  pub dual_auth : Bool
  pub distinct_from_actor : Bool
  pub approvers : List String
  pub timeout : Option ℕ
  pub on_timeout : String

pub record ReleaseContract : Type 0 where
  pub gate : String
  pub cause : String
  pub quorum : ℕ
  pub dual_auth : Bool
  pub distinct_from_actor : Bool
  pub approvers : List String
  pub timeout : Option ℕ
  pub on_timeout : String
  pub reason_code : String
  pub evidence : Option Fields
  pub satisfied_by : List String

pub record GateOutcome : Type 0 where
  pub outcome : Outcome
  pub results : List GateResult
  pub reason : String
  pub approval : Option ApprovalSpec
  pub releases : List ReleaseContract

pub data Capability : Type 0 where
  transactional window : Capability

pub record ObligationClaim : Type 0 where
  pub registry : String
  pub ref : String
  pub consume : String
  pub capability : Capability
  pub intent_id : String

-- `output`: the rows of an observe, the receipt of a record or a transition
pub data Output : Type 0 where
  rows : List Value → Output
  receipt : Fields → Output

pub record ItemVerdict : Type 0 where
  pub item : String
  pub decision : Decision
  pub rule : String
  pub reason_code : String
  pub retry_class : Option RetryClass
  pub ticket : Option String

pub record EvalResult : Type 0 where
  pub decision : Decision
  pub rule : String
  pub gates : List GateResult
  pub reason_code : String
  pub retry_class : Option RetryClass
  pub feedback : FeedbackLevel
  pub ticket : Option String
  pub output : Option Output
  pub scope_applied : List String
  pub items : List ItemVerdict
  pub applied : List String

pub record BatchResult : Type 0 where
  pub decision : Decision
  pub failing_index : Option ℕ
  pub results : List EvalResult

pub record Advice : Type 0 where
  pub decision : Decision
  pub rule : String
  pub reason_code : String
  pub retry_class : Option RetryClass
  pub dedupe_key : Option String

-- `_approval_audit`, `releases_audit`
pub record ApprovalAudit : Type 0 where
  pub status : String
  pub ticket : Option String
  pub spec : Option ApprovalSpec
  pub releases : List ReleaseContract

-- `ObligationClaim.audit_dict`
pub record Consumption : Type 0 where
  pub state : String
  pub claim : ObligationClaim
  pub receipt : Option String

-- `obligation_refs`
pub record ObligationRefs : Type 0 where
  pub registry : Value
  pub refs : Value
  pub candidates : Value

-- `_measure_scope`
pub data ScopeWouldRemove : Type 0 where
  unmeasured : String → String → ScopeWouldRemove
  measured : String → ℕ → ℕ → ℕ → Bool → ScopeWouldRemove

pub record BatchAdvice : Type 0 where
  pub failing_index : ℕ
  pub decision : Decision

pub record ItemAdviceEntry : Type 0 where
  pub item : String
  pub decision : Decision
  pub rule : String
  pub reason_code : String
  pub retry_class : Option RetryClass
  pub coverage : Option Coverage

pub record ItemAdvice : Type 0 where
  pub would_apply : ℕ
  pub would_refuse : ℕ
  pub items : List ItemAdviceEntry

pub record AuditRecord : Type 0 where
  pub agent : String
  pub actor : String
  pub kind : Option String
  pub resource : Option String
  pub action : Option String
  pub parameters : Fields
  pub scope_applied : List String
  pub gates : List GateResult
  pub decision : Decision
  pub rule : Option String
  pub reason_code : String
  pub retry_class : Option RetryClass
  pub approval : Option ApprovalAudit
  pub outcome : String
  pub result_refs : List String
  pub obligation_refs : Option ObligationRefs
  pub consumption : Option Consumption
  pub correlation_id : Option String
  pub enforcement : EnforcementMode
  pub advised : Option Advice
  pub coverage : Coverage
  pub batch_advice : Option BatchAdvice
  pub scope_would_remove : Option ScopeWouldRemove
  pub item_advice : Option ItemAdvice
