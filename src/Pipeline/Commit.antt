-- ===== src/Pipeline/Commit.antt =====
-- `_commit`: steps 6 and 7 for one decided operation, with `_terminal`, `_find_duplicate_hold`,
-- `_staging_expiry` and `_approval_audit`.
pub mod Steps
use stonefold.Prelude.{
  ℕ, ◌+◌, ◌-◌, String, Bool, true, false, not, Option, none, some, List, [], ◌∷◌, ◌&&◌,
  if◌then◌else◌, str_eq, ltb, leb, find,
}
use stonefold.Values.{Fields}
use stonefold.Models.Enums.{Kind, Decision, EnforcementMode, Coverage, FeedbackLevel, is_effect}
use stonefold.Models.Records.{
  RawCall, ResolvedAction, Actor, Session, GateResult, RequestEnv, ApprovalSpec, ReleaseContract,
  ObligationClaim, Output, EvalResult, ApprovalAudit, Consumption, ScopeWouldRemove, Compensation,
}
use stonefold.Failure.{Call, ok, raised, should_fail_closed, irreversible_effect}
use stonefold.Reasons.{classify}
use stonefold.Audit.{build_record}
use stonefold.Obligation.{claim_evidence}
use stonefold.Outbox.{PendingState, PendingAction, HoldIdentity, hold_identity, identity_eq}
use stonefold.Outbox.Store.{StageRequest}
use stonefold.Pipeline.{
  Event, executed, holds_listed, bumped, staged, wrote, Act, ◌>>=◌, return, raise, ask, Connectors,
  Outbox, FreshnessConfig, Deps, ScopeMeasure, Decided, Sink, agent_name, failure_mode,
}
use stonefold.Pipeline.Claims.{
  Reservation, claimed, refusal, audit_dict, reserve_claim, release_claim, consume_claim,
}
use stonefold.Pipeline.Advised.{measure_scope, sunk}

-- The keyword arguments of `_terminal`.
pub record Ending : Type 0 where
  pub gate_results : List GateResult
  pub ticket : Option String
  pub output : Option Output
  pub scope_applied : List String
  pub outcome : String
  pub approval : Option ApprovalAudit
  pub consumption : Option Consumption
  pub scope_would_remove : Option ScopeWouldRemove

-- `_terminal` with the gates and the scope of a decided operation
abbrev pub ending_of : Decided → Ending
ending_of d = record {
  gate_results = d.gate_results;
  ticket = none;
  output = none;
  scope_applied = d.scope_applied;
  outcome = "not_executed";
  approval = none;
  consumption = none;
  scope_would_remove = none;
}

-- The reservation that a commit goes on with, or the rule of its refusal.
pub data Holding : Type 0 where
  holding : Option ObligationClaim → Holding
  unreserved : String → Holding

-- hold_dedupe_key(agent, resolved, gates) == key
same_hold : Option HoldIdentity → String → Option HoldIdentity → String → Bool
same_hold (some a) agent (some b) agent' = str_eq agent agent' && identity_eq a b
same_hold _ agent _ agent' = false

-- `_approval_audit`
unfoldable pub approval_audit :
    Option ApprovalSpec → Option String → List ReleaseContract → Option ApprovalAudit
approval_audit none ticket [] = none
approval_audit (some spec) ticket releases =
    some (record { status = "pending"; ticket = ticket; spec = some spec; releases = releases })
approval_audit none ticket (c ∷ cs) =
    some (record { status = "pending"; ticket = ticket; spec = none; releases = c ∷ cs })

-- `FreshnessConfig.expiry_for`, `ttl_for`
unfoldable pub expiry_for : FreshnessConfig → ResolvedAction → ℕ → ℕ
expiry_for f a now = now + (if irreversible_effect a then f.irreversible_ttl else f.default_ttl)

abbrev pub now_of : Option RequestEnv → Option ℕ
now_of none = none
now_of (some env) = env.now

-- `_staging_expiry`: `raised` is Unavailable
unfoldable pub staging_expiry :
    Option FreshnessConfig → Option RequestEnv → ResolvedAction → Call (Option ℕ)
staging_expiry none env a = ok none
staging_expiry (some f) env a = elim (now_of env) [
  | none ↦ raised
  | some now ↦ ok (some (expiry_for f a now))
]

module _ {W : Type 0} (d : Deps W) (sink : Sink) (actor : Actor) (session : Session) where
  -- the record goes to the sink, and the result is returned
  unfoldable pub terminal :
      Decision → String → RawCall → Option ResolvedAction → Ending → Act W EvalResult
  terminal decision rule call resolved e w =
      let (reason_code, retry_class) = classify decision rule e.gate_results in
      let result : EvalResult = record {
        decision = decision;
        rule = rule;
        gates = e.gate_results;
        reason_code = reason_code;
        retry_class = retry_class;
        feedback = FeedbackLevel.code_fields;
        ticket = e.ticket;
        output = e.output;
        scope_applied = e.scope_applied;
        items = [];
        applied = [];
      } in
      let rec =
        build_record (agent_name d) actor session call resolved result e.outcome e.approval []
          e.consumption EnforcementMode.enforced none Coverage.judged e.scope_would_remove in
      record { value = some result; events = wrote (sunk sink rec) ∷ []; world = w }

  -- the terminal of a decided operation
  abbrev pub ends : Decided → ResolvedAction → Decision → String → Ending → Act W EvalResult
  ends k a decision rule e = terminal decision rule k.call (some a) e

  abbrev pub denied : Decided → ResolvedAction → String → Act W EvalResult
  denied k a rule = ends k a Decision.deny rule (ending_of k)

  abbrev pub allowed : Decided → ResolvedAction → Act W EvalResult
  allowed k a = ends k a Decision.allow k.rule (ending_of k)

  module _ (env : Option RequestEnv) where
    -- rows outside the window are passed over
    duplicates : Decided → ResolvedAction → ℕ → ℕ → PendingAction → Bool
    unfolding same_hold
    duplicates k a window now row =
        leb now (row.created_at + window)
        && same_hold (hold_identity d.text row.resolved row.gates) row.agent
            (hold_identity d.text a k.gate_results) (agent_name d)

    first_duplicate :
        Decided → ResolvedAction → ℕ → ℕ → Call (List PendingAction) → Option PendingAction
    unfolding duplicates
    first_duplicate k a window now raised = none
    first_duplicate k a window now (ok rows) = find (duplicates k a window now) rows

    search_holds :
        Outbox W
        → Decided
        → ResolvedAction
        → ℕ
        → ℕ
        → Option HoldIdentity
        → Act W (Option PendingAction)
    unfolding first_duplicate
    search_holds ob k a window now none = return none
    search_holds ob k a window now (some key) =
        ask holds_listed ob.list_held >>= (λ rows. return (first_duplicate k a window now rows))

    search_within :
        Outbox W → Decided → ResolvedAction → Option ℕ → Option ℕ → Act W (Option PendingAction)
    unfolding search_holds
    search_within ob k a (some window) (some now) =
        search_holds ob k a window now (hold_identity d.text a k.gate_results)
    search_within ob k a (some window) none = return none
    search_within ob k a none now = return none

    -- `_find_duplicate_hold`
    unfoldable pub find_duplicate_hold :
        Outbox W → Decided → ResolvedAction → Act W (Option PendingAction)
    unfolding search_within
    find_duplicate_hold ob k a = search_within ob k a d.dedupe_window (now_of env)

    -- what a call of `_reserve_claim` leaves the commit with
    after_reserve : Reservation → Act W Holding
    after_reserve (claimed c) = return (holding (some c))
    after_reserve (refusal rule) = return (unreserved rule)

    reserve_plan : Option Fields → Act W Holding
    unfolding after_reserve
    reserve_plan none = return (holding none)
    reserve_plan (some plan) = reserve_claim d plan >>= after_reserve

    -- claim = decided.claim, or else the reservation of the trace's plan
    unfoldable pub claim_for : Decided → Act W Holding
    unfolding reserve_plan
    claim_for k = elim k.claim [
      | some c ↦ return (holding (some c))
      | none ↦ reserve_plan (claim_evidence k.gate_results)
    ]
