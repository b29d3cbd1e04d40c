-- ===== src/Pipeline/Enforce/Laws.antt =====
-- What a call that is decided as one unit ends in, in either mode.
use stonefold.Prelude.{
  ◌≡◌, refl, true, false, Option, none, some, List, [], arith, Bool-cases, inl, inr, ◌⊎◌, sym, ap,
  ◌∙◌, ◌&&◌,
}
use stonefold.Values.{Fields}
use stonefold.Models.Enums.{Decision, EnforcementMode, is_refusal, is_allow, is_halt}
use stonefold.Models.Records.{
  RawCall, ResolvedAction, Actor, Session, RequestEnv, GateResult, GateOutcome,
}
use stonefold.Failure.{Call, ok}
use stonefold.Obligation.{claim_evidence}
use stonefold.Pipeline.{Deps, Decided, Sink}
use stonefold.Pipeline.Audited.{Ends, Ended, Ends-map, Keeps, is_call}
use stonefold.Pipeline.Audited.Tries.{Escaped, Tries-Ends}
use stonefold.Pipeline.Claims.Laws.{IsReadable}
use stonefold.Pipeline.Advised.{as_advised, kill_caused}
use stonefold.Pipeline.Advised.Laws.{
  stays, goes_through, as_advised-IsSame, IsSame, as_advised-forwards, as_advised-killed,
}
use stonefold.Pipeline.Decide.{decide}
use stonefold.Pipeline.Decide.Laws.{IsVerdict, decide-Looks, GatesRaised}
use stonefold.Pipeline.Commit.Steps.{commit}
use stonefold.Pipeline.Commit.Steps.Staged.{Reads}
use stonefold.Pipeline.Commit.Steps.Laws.{commit-Ends}
use stonefold.Pipeline.Enforce.{
  stamp_feedback, commit_stamped, in_mode, commit_in_mode, enforce_whole,
}

-- The consumable evidence of a trace can be read.
abbrev pub ReadsTrace : {W : Type 0} → Deps W → List GateResult → Type 0
ReadsTrace d gates = (plan : Fields) → claim_evidence gates ≡ some plan → IsReadable d plan

-- A gate engine whose match evidence has the entries that a reservation reads.
abbrev pub SoundGates : {W : Type 0} → Deps W → Actor → Session → Type 0
SoundGates {W} d actor session =
    (evaluate : ResolvedAction → Actor → Session → RequestEnv → W → Call GateOutcome × W)
    (a : ResolvedAction) (env : RequestEnv) (w : W)
    → d.gates ≡ some evaluate
    → (o : GateOutcome) → (evaluate a actor session env w).0 ≡ ok o
    → ReadsTrace d o.results

stamp_feedback-Keeps : (k : Decided) → Keeps (stamp_feedback k)
unfolding stamp_feedback
stamp_feedback-Keeps k = record {
  decision = λ r. refl;
  gates = λ r. refl;
  reason_code = λ r. refl;
  retry_class = λ r. refl;
  scope_applied = λ r. refl;
}

nothing_claimed : (plan : Fields) → claim_evidence [] ≡ some plan → ⊥
unfolding claim_evidence
nothing_claimed plan e = ground arith

refusal-allow : (x : Decision) → is_refusal x ≡ true → is_allow x ≡ false
refusal-allow x h = ground arith

module _ {W : Type 0} (d : Deps W) (actor : Actor) (session : Session)
    (env : Option RequestEnv) where
  commit_stamped-Ends :
      (sink : Sink) (k : Decided)
      → is_refusal k.decision ≡ true ⊎ (a : ResolvedAction) × (k.resolved ≡ some a)
      → Reads d k
      → Ends (commit_stamped d actor session env sink k)
  unfolding commit_stamped
  commit_stamped-Ends sink k h reads =
      Ends-map (commit d sink actor session env k) (stamp_feedback k) (stamp_feedback-Keeps k)
        (commit-Ends d sink actor session env k h reads)

  addressed-same :
      (k k' : Decided)
      → IsSame k k'
      → is_refusal k'.decision ≡ true ⊎ (a : ResolvedAction) × (k.resolved ≡ some a)
      → is_refusal k'.decision ≡ true ⊎ (a : ResolvedAction) × (k'.resolved ≡ some a)
  addressed-same k k' h (inl r) = inl r
  addressed-same k k' h (inr (a, r)) = inr (a, h.resolved ∙ r)

  -- what a translation leaves refused, or was resolved before it
  as_advised-addressed :
      (k : Decided)
      → is_refusal k.decision ≡ true ⊎ (a : ResolvedAction) × (k.resolved ≡ some a)
      → is_refusal (as_advised d k).0.decision ≡ true ⊎ (a : ResolvedAction) × (k.resolved ≡ some a)
  as_advised-addressed k (inr p) = inr p
  as_advised-addressed k (inl r) = elim (Bool-cases (is_halt k.decision && kill_caused k.rule)) [
    | inl e ↦ inl (rw (as_advised-killed d k e) r)
    | inr e ↦ elim (as_advised-forwards d k (refusal-allow k.decision r) e) [
      | stays u same ↦ inl (rw same r)
      | goes_through a b u f e1 e2 e3 ↦ inr (a, u)
    ]
  ]

  commit_in_mode-Ends :
      (k : Decided) → IsVerdict (ReadsTrace d) k → Ends (commit_in_mode d actor session env k)
  unfolding commit_in_mode in_mode
  commit_in_mode-Ends k h =
      elim d.enforcement
        as (λ m. Ends (
          commit_stamped d actor session env (in_mode d actor session env m k).1
            (in_mode d actor session env m k).0)) [
              | EnforcementMode.enforced ↦ commit_stamped-Ends none k h.addressed h.traced
              | EnforcementMode.advisory ↦
                  let s = as_advised-IsSame d k in
                  commit_stamped-Ends _ (as_advised d k).0
                    (addressed-same k (as_advised d k).0 s (as_advised-addressed k h.addressed))
                    (λ plan e. h.traced plan (ap claim_evidence (sym s.gate_results) ∙ e))
            ]

  -- In either mode, and whatever the injected dependencies answer or raise, a call that is decided as
  -- one unit returns a result and writes exactly one audit record, which has the result's decision,
  -- gates, reason code, retry class and scope; or else the gate engine raised, and then its exception
  -- leaves the call, which wrote no record. The match evidence that the gate engine answers is
  -- readable.
  pub enforce-audits_once :
      SoundGates d actor session
      → (call : RawCall) (w : W)
      → Ended (enforce_whole d actor session env call w)
        ⊎ Escaped is_call (GatesRaised d actor session) (enforce_whole d actor session env call w)
  unfolding enforce_whole
  enforce-audits_once sound call =
      Tries-Ends (decide d actor session call env) (commit_in_mode d actor session env)
        (decide-Looks d actor session (ReadsTrace d) (λ plan e. absurd (nothing_claimed plan e))
          sound call env)
        commit_in_mode-Ends
