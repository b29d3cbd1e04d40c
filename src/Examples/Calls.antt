-- ===== src/Examples/Calls.antt =====
-- Calls through the pipeline: a payment that is staged, one that a kill halts, a refused batch.
use stonefold.Prelude.{
  ◌+s◌, ◌≡◌, refl, ap, ℕ, ◌+◌, true, Option, none, some, List, [], ◌∷◌, all, length, arith, inr,
  ◌⊎◌, ◌∙◌,
}
use stonefold.Values.{Fields}
use stonefold.Models.Enums.{
  Decision, EnforcementMode, FeedbackLevel, FailureMode, Kind, Outcome, KillScopeKind,
}
use stonefold.Models.Records.{
  RawCall, ResolvedAction, Actor, Session, GateResult, GateOutcome, RequestEnv, EvalResult,
  BatchResult, AuditRecord,
}
use stonefold.Failure.{Call, ok, raised}
use stonefold.Compiler.{compile, Targets}
use stonefold.Kill.{KillOrder, KillTarget, pre_target}
use stonefold.Obligation.{claim_evidence}
use stonefold.Pipeline.{Deps, Outbox, PolicyView, Decided, decided_as, kill_read, wrote, agent_name}
use stonefold.Pipeline.Audited.{Ended, Settled, is_look, is_call}
use stonefold.Pipeline.Audited.Tries.{Escaped}
use stonefold.Pipeline.Advised.{as_advised}
use stonefold.Pipeline.Advised.Laws.{as_advised-forwards, Translated}
use stonefold.Pipeline.Decide.{decide}
use stonefold.Pipeline.Decide.Laws.{decide-Looks, IsVerdict, GatesRaised}
use stonefold.Pipeline.Commit.Steps.{commit}
use stonefold.Pipeline.Commit.Steps.Laws.{commit-Ends}
use stonefold.Pipeline.Enforce.{enforce_whole}
use stonefold.Pipeline.Enforce.Laws.{enforce-audits_once, SoundGates}
use stonefold.Pipeline.Enforce.Killed.{killed-halts}
use stonefold.Pipeline.Batch.{commit_batch, position}
use stonefold.Pipeline.Batch.Laws.{refused_batch-commits_nothing, IsRefusal, is_wrote}
use stonefold.Examples.Fixtures.{payment, payer, session}

abbrev engine : ResolvedAction → Actor → Session → RequestEnv → ℕ → Call GateOutcome × ℕ
engine a actor s env w = (
  ok (record { outcome = Outcome.pass; results = []; reason = ""; approval = none; releases = [] }),
  w,
)

abbrev policy : PolicyView
policy = record {
  agent = "teller";
  failure_mode = FailureMode.closed;
  allow = compile (((Kind.effect, Targets.star) ∷ []) ∷ []) [];
  deny = [];
  feedback_for = λ a. FeedbackLevel.code;
}

-- each staging takes the next ticket
abbrev outbox : Outbox ℕ
outbox = record {
  stage = λ q w. (ok "ticket", w + 1);
  list_held = λ w. (ok [], w);
  bump_attempts = λ t w. (raised, w);
}

abbrev pub deps : Deps ℕ
deps = record {
  resolve = λ c. some payment;
  policy = some policy;
  gates = some engine;
  scopes = none;
  connectors = none;
  outbox = some outbox;
  kill = none;
  freshness = none;
  obligations = none;
  dedupe_window = none;
  agent = "unknown";
  enforcement = EnforcementMode.enforced;
  scope_measure_cap = 10000;
  new_intent = λ w. ("itn_1", w);
  text = record { repr = λ v. ""; dumps = λ d. "" };
  identity_text = λ i. "";
}

abbrev pub call : RawCall
call = record { resource = "Payment"; action = some "send"; payload = payment.payload }

sound : SoundGates deps payer session
unfolding claim_evidence
sound evaluate a env w e o answered plan p =
    let results = (λ (answer : Call GateOutcome). elim answer as (λ x. List GateResult) [
      | raised ↦ []
      | ok o ↦ o.results
    ]) in
    let same =
      ap
        (λ (o : Option (ResolvedAction → Actor → Session → RequestEnv → ℕ → Call GateOutcome × ℕ)).
          elim o [ none ↦ [] | some g ↦ results (g a payer session env w).0 ])
        e in
    ground (arith, ap claim_evidence (same ∙ ap results answered))

enforce-audits_once_example :
    Ended (enforce_whole deps payer session none call 0)
    ⊎ Escaped is_call
        (GatesRaised deps payer session)
        (enforce_whole deps payer session none call 0)
enforce-audits_once_example = enforce-audits_once deps payer session none sound call 0

abbrev order : KillOrder
order = record {
  id = "k1";
  scope = record {
    kind = KillScopeKind.global;
    agent = none;
    session_id = none;
    action_kind = none;
    resource = none;
    action = none;
  };
  predicate = none;
  issued_by = "ops";
  issued_at = 1;
  lifted_at = none;
  epoch = 1;
}

abbrev stopped : KillTarget → ℕ → Call (Option KillOrder) × ℕ
stopped t w = (ok (some order), w)

-- the same deployment, watching only, under a kill
abbrev killed_deps : Deps ℕ
killed_deps = record deps { kill = some stopped; enforcement = EnforcementMode.advisory }

killed-halts_example :
    let run = enforce_whole killed_deps payer session none call 0 in
    (r : EvalResult) × (rec : AuditRecord) × (run.value ≡ some r)
    × (r.decision ≡ Decision.halt)
    × (r.rule ≡ "kill:" +s "k1")
    × (run.events ≡ kill_read (pre_target (agent_name killed_deps) session.id) ∷ wrote rec ∷ [])
killed-halts_example =
    killed-halts killed_deps payer session none call payment order stopped 0 refl refl refl

abbrev pub good : Decided
good = decided_as call (some payment) Decision.allow "allow"

abbrev bad : Decided
bad = decided_as call (some payment) Decision.deny "deny-rule"

refused_batch-commits_nothing_example :
    let run =
      commit_batch deps payer session EnforcementMode.enforced
        (none ∷ none ∷ [])
        (good ∷ bad ∷ [])
        0 in
    (b : BatchResult) × (run.value ≡ some b)
    × IsRefusal deps payer session 1 Decision.deny 2 b
    × (all is_wrote run.events ≡ true)
    × (length run.events ≡ 2)
    × (run.world ≡ 0)
refused_batch-commits_nothing_example =
    refused_batch-commits_nothing deps payer session (good ∷ bad ∷ []) (none ∷ none ∷ []) 1 bad 0
      (unfold position in refl)

as_advised-forwards_example : Translated bad (as_advised deps bad).0 (as_advised deps bad).1
as_advised-forwards_example = as_advised-forwards deps bad refl refl

decide-Looks_example :
    Settled is_look
      (IsVerdict (λ (gates : List GateResult). Unit))
      (decide deps payer session call none 0)
    ⊎ Escaped is_look (GatesRaised deps payer session) (decide deps payer session call none 0)
decide-Looks_example =
    decide-Looks deps payer session (λ gates. Unit) tt (λ evaluate a env w e o answered. tt) call
      none 0

no_plan : (plan : Fields) → claim_evidence [] ≡ some plan → ⊥
unfolding claim_evidence
no_plan plan e = ground arith

commit-Ends_example : Ended (commit deps none payer session none good 0)
commit-Ends_example =
    commit-Ends deps none payer session none good (inr (payment, refl))
      (λ plan e. absurd (no_plan plan e)) 0
