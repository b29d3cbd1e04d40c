-- ===== src/Pipeline/Commit/Steps/Laws.antt =====
-- One record for each commit, on every path.
use stonefold.Prelude.{
  ◌≡◌, refl, String, true, Option, none, some, arith, Bool-cases, inl, inr, ◌⊎◌,
}
use stonefold.Models.Enums.{is_refusal, is_effect, is_hold}
use stonefold.Models.Records.{ResolvedAction, Actor, Session, RequestEnv, ObligationClaim, Output}
use stonefold.Failure.{Call, ok, raised, should_fail_closed}
use stonefold.Pipeline.{Connectors, Deps, Decided, Sink, failure_mode}
use stonefold.Pipeline.Claims.Laws.{release_claim-Settles, consume_claim-Settles}
use stonefold.Pipeline.Commit.{ending_of, Holding, holding, unreserved, terminal}
use stonefold.Pipeline.Commit.Steps.{
  degraded, succeeded, inline_done, run_inline, commit_inline, commit_resolved, commit_at, commit,
}
use stonefold.Pipeline.Audited.{Settled-ask, Anything, Ends, Ended, Ends-bind}
use stonefold.Pipeline.Commit.Steps.Staged.{
  Reads, terminal-Ends, claim_for-Settles, denied-Ends, commit_hold-Ends, commit_effect-Ends,
}

module _ {W : Type 0} (d : Deps W) (sink : Sink) (actor : Actor) (session : Session)
    (env : Option RequestEnv) (k : Decided) (reads : Reads d k) (a : ResolvedAction) where
  degraded-Ends : (rule : String) → Ends (degraded d sink actor session env k a rule)
  unfolding degraded
  degraded-Ends rule = elim (Bool-cases (should_fail_closed (some a) (failure_mode d))) [
    | inl e ↦ rw e (denied-Ends d sink actor session env k reads a rule)
    | inr e ↦ rw e (terminal-Ends d sink actor session _ _ _ _ _)
  ]

  inline_done-Ends :
      (c : Option ObligationClaim) (answer : Call Output)
      → Ends (inline_done d sink actor session env k a c answer)
  unfolding inline_done succeeded
  inline_done-Ends c raised =
      Ends-bind _ _ (release_claim-Settles d c) (λ _ _. degraded-Ends "connector-unavailable")
  inline_done-Ends c (ok output) =
      Ends-bind _ _ (consume_claim-Settles d c)
        (λ _ _. terminal-Ends d sink actor session _ _ _ _ _)

  run_inline-Ends :
      (c : Connectors W) (h : Holding) → Ends (run_inline d sink actor session env k a c h)
  unfolding run_inline
  run_inline-Ends c (unreserved rule) = denied-Ends d sink actor session env k reads a rule
  run_inline-Ends c (holding claim) =
      Ends-bind _ _ (Settled-ask {P = Anything} _ _ refl (λ _. tt))
        (λ answer _. inline_done-Ends claim answer)

  commit_inline-Ends :
      (c : Option (Connectors W)) → Ends (commit_inline d sink actor session env k a c)
  unfolding commit_inline
  commit_inline-Ends none = terminal-Ends d sink actor session _ _ _ _ _
  commit_inline-Ends (some c) = elim (Bool-cases (c.digest_mismatch a)) [
    | inl e ↦ rw e (degraded-Ends "connector-digest-mismatch")
    | inr e ↦ rw e (
        Ends-bind _ _ (claim_for-Settles d sink actor session env k reads a)
          (λ h _. run_inline-Ends c h))
  ]

  commit_resolved-Ends : Ends (commit_resolved d sink actor session env k a)
  unfolding commit_resolved
  commit_resolved-Ends = elim (Bool-cases (is_hold k.decision)) [
    | inl e ↦ rw e (commit_hold-Ends d sink actor session env k reads a d.outbox)
    | inr e ↦ elim (Bool-cases (is_effect a.kind)) [
      | inl f ↦ rw (e, f) (commit_effect-Ends d sink actor session env k reads a d.outbox)
      | inr f ↦ rw (e, f) (commit_inline-Ends d.connectors)
    ]
  ]

module _ {W : Type 0} (d : Deps W) (sink : Sink) (actor : Actor) (session : Session)
    (env : Option RequestEnv) where
  commit_at-Ends :
      (k : Decided) (o : Option ResolvedAction) (a : ResolvedAction)
      → Reads d k
      → o ≡ some a
      → Ends (commit_at d sink actor session env k o)
  unfolding commit_at
  commit_at-Ends k none a reads h = absurd (ground arith)
  commit_at-Ends k (some b) a reads h = commit_resolved-Ends d sink actor session env k reads b

  -- Whatever the dependencies answer or raise, the commit of a verdict (one that is refused or
  -- resolved, and whose consumable evidence can be read) returns a result and writes exactly one
  -- audit record, which has the result's decision, gates, reason code, retry class and scope.
  pub commit-Ends :
      (k : Decided)
      → is_refusal k.decision ≡ true ⊎ (a : ResolvedAction) × (k.resolved ≡ some a)
      → Reads d k
      → (w : W) → Ended (commit d sink actor session env k w)
  unfolding commit
  commit-Ends k h reads w = elim (Bool-cases (is_refusal k.decision)) [
    | inl e ↦ rw e (terminal-Ends d sink actor session _ _ _ _ _ w)
    | inr e ↦ elim h [
      | inl r ↦ absurd (ground arith)
      | inr (a, r) ↦ rw e (commit_at-Ends k k.resolved a reads r w)
    ]
  ]

  -- a refusal goes to `_terminal` as it is
  pub commit-refused :
      (k : Decided)
      → is_refusal k.decision ≡ true
      → commit d sink actor session env k
        ≡ terminal d sink actor session k.decision k.rule k.call k.resolved
            (record (ending_of k) { outcome = k.outcome })
  unfolding commit
  commit-refused k e = rw e refl
