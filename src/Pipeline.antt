-- ===== src/Pipeline.antt =====
-- stonefold_core/pipeline.py: the dependencies that the pipeline is given, as operations on one
-- world, and its verdicts. A call that the code guards may raise. `none` as the value of a run is an
-- exception that the pipeline does not catch.
pub mod Claims
pub mod Advised
pub mod Decide
pub mod Commit
pub mod Audited
pub mod Enforce
pub mod Batch
pub mod Items
use stonefold.Prelude.{ℕ, String, Bool, true, false, Option, none, some, List, [], ◌∷◌, ◌++◌}
use stonefold.Values.{Fields, PyText}
use stonefold.Models.Enums.{Decision, EnforcementMode, Coverage, FeedbackLevel, FailureMode}
use stonefold.Models.Records.{
  RawCall, ResolvedAction, Actor, Session, GateResult, RequestEnv, ApprovalSpec, ReleaseContract,
  GateOutcome, ObligationClaim, Output, Advice, BatchAdvice, ItemAdvice, AuditRecord,
}
use stonefold.Failure.{Call}
use stonefold.Compiler.{KindMatcher}
use stonefold.Kill.{KillTarget, KillOrder}
use stonefold.Obligation.{ReserveOutcome, ReleaseOutcome, ConsumeResult}
use stonefold.Outbox.{PendingAction, HoldIdentity}
use stonefold.Outbox.Store.{StageRequest}

-- What a run asks of its dependencies, in order, and what it writes to the audit sink.
pub data Event : Type 0 where
  kill_read : KillTarget → Event
  target_fetched : ResolvedAction → Event
  gates_run : ResolvedAction → Event
  executed : ResolvedAction → Event
  holds_listed : Event
  bumped : String → Event
  staged : StageRequest → Event
  reserve_asked release_asked consume_asked : String → String → String → Event
  wrote : AuditRecord → Event

pub record Run (W A : Type 0) : Type 0 where
  pub value : Option A
  pub events : List Event
  pub world : W

-- A part of the pipeline: it acts on the world that its dependencies share.
abbrev pub Act : Type 0 → Type 0 → Type 0
Act W A = W → Run W A

infixl 1 ◌>>=◌
module _ {W A B : Type 0} where
  resume : (A → Act W B) → Run W A → Run W B
  resume f r = elim r.value [
    | none ↦ record { value = none; events = r.events; world = r.world }
    | some a ↦
        let s = f a r.world in
        record { value = s.value; events = r.events ++ s.events; world = s.world }
  ]

  unfoldable pub ◌>>=◌ : Act W A → (A → Act W B) → Act W B
  unfolding resume
  ◌>>=◌ m f w = resume f (m w)

module _ {W A : Type 0} where
  abbrev pub return : A → Act W A
  return a w = record { value = some a; events = []; world = w }

  -- an uncaught exception
  abbrev pub raise : Act W A
  raise w = record { value = none; events = []; world = w }

  -- one operation of a dependency
  abbrev pub ask : Event → (W → A × W) → Act W A
  ask e op w = record { value = some (op w).0; events = e ∷ []; world = (op w).1 }

-- `ScopePredicate`
pub record ScopePredicate : Type 0 where
  pub name : String
  pub matches : Fields → Actor → Call Bool

-- The part of `CompiledPolicy` that the pipeline reads.
pub record PolicyView : Type 0 where
  pub agent : String
  pub failure_mode : FailureMode
  pub allow : KindMatcher
  pub deny : KindMatcher
  pub feedback_for : ResolvedAction → FeedbackLevel

-- `ConnectorRegistry` with its connectors, and `digest_matches` of a wired connector
pub record Connectors (W : Type 0) : Type 0 where
  pub fetch_target : ResolvedAction → Option ScopePredicate → Actor → W → Call (Option Fields) × W
  pub execute : ResolvedAction → Option ScopePredicate → Actor → W → Call Output × W
  pub digest_mismatch : ResolvedAction → Bool

-- the operations of `OutboxStore` that the pipeline calls
pub record Outbox (W : Type 0) : Type 0 where
  pub stage : StageRequest → W → Call String × W
  pub list_held : W → Call (List PendingAction) × W
  pub bump_attempts : String → W → Call PendingAction × W

-- `ObligationRegistry`
pub record Adapter (W : Type 0) : Type 0 where
  pub reserve : String → String → W → Call ReserveOutcome × W
  pub release : String → String → W → Call ReleaseOutcome × W
  pub consume : String → String → W → Call ConsumeResult × W

pub record FreshnessConfig : Type 0 where
  pub default_ttl : ℕ
  pub irreversible_ttl : ℕ

-- The keyword arguments of `enforce`; `resolve` gives none where UnknownActionError is raised, and
-- `new_intent` is uuid4.
pub record Deps (W : Type 0) : Type 0 where
  pub resolve : RawCall → Option ResolvedAction
  pub policy : Option PolicyView
  pub gates : Option (ResolvedAction → Actor → Session → RequestEnv → W → Call GateOutcome × W)
  pub scopes : Option (String → Option ScopePredicate)
  pub connectors : Option (Connectors W)
  pub outbox : Option (Outbox W)
  pub kill : Option (KillTarget → W → Call (Option KillOrder) × W)
  pub freshness : Option FreshnessConfig
  pub obligations : Option (String → Option (Adapter W))
  pub dedupe_window : Option ℕ
  pub agent : String
  pub enforcement : EnforcementMode
  pub scope_measure_cap : ℕ
  pub new_intent : W → String × W
  pub text : PyText
  pub identity_text : HoldIdentity → String

pub record ScopeMeasure : Type 0 where
  pub predicate : ScopePredicate
  pub label : String
  pub cap : ℕ

-- `_Decided`
pub record Decided : Type 0 where
  pub call : RawCall
  pub resolved : Option ResolvedAction
  pub decision : Decision
  pub rule : String
  pub outcome : String
  pub gate_results : List GateResult
  pub approval : Option ApprovalSpec
  pub releases : List ReleaseContract
  pub scope_pred : Option ScopePredicate
  pub scope_applied : List String
  pub scope_measure : Option ScopeMeasure
  pub feedback : FeedbackLevel
  pub claim : Option ObligationClaim

-- `_Decided` at its defaults
abbrev pub decided_as : RawCall → Option ResolvedAction → Decision → String → Decided
decided_as call resolved decision rule = record {
  call = call;
  resolved = resolved;
  decision = decision;
  rule = rule;
  outcome = "not_executed";
  gate_results = [];
  approval = none;
  releases = [];
  scope_pred = none;
  scope_applied = [];
  scope_measure = none;
  feedback = FeedbackLevel.code_fields;
  claim = none;
}

-- The fields of `_AdvisoryAudit`; an enforcing deployment writes to the plain sink.
pub record AdvisoryAudit : Type 0 where
  pub advice : Option Advice
  pub batch_advice : Option BatchAdvice
  pub item_advice : Option ItemAdvice
  pub coverage : Coverage

abbrev pub fresh_audit : AdvisoryAudit
fresh_audit = record {
  advice = none;
  batch_advice = none;
  item_advice = none;
  coverage = Coverage.judged;
}

-- The sink of one commit: `none` is the plain sink.
abbrev pub Sink : Type 0
Sink = Option AdvisoryAudit

-- policy.agent if policy is not None else agent
unfoldable pub agent_name : {W : Type 0} → Deps W → String
agent_name d = elim d.policy [ none ↦ d.agent | some p ↦ p.agent ]

unfoldable pub failure_mode : {W : Type 0} → Deps W → FailureMode
failure_mode d = elim d.policy [ none ↦ FailureMode.closed | some p ↦ p.failure_mode ]
