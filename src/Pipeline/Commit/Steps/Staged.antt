-- ===== src/Pipeline/Commit/Steps/Staged.antt =====
-- One record for each commit that holds or stages, on every path.
use stonefold.Prelude.{◌≡◌, refl, ℕ, String, Option, none, some}
use stonefold.Values.{Fields}
use stonefold.Models.Enums.{Decision}
use stonefold.Models.Records.{
  RawCall, ResolvedAction, Actor, Session, RequestEnv, ObligationClaim, EvalResult, AuditRecord,
}
use stonefold.Audit.{build_record}
use stonefold.Failure.{Call, ok, raised}
use stonefold.Obligation.{claim_evidence}
use stonefold.Outbox.{PendingAction, HoldIdentity, hold_identity}
use stonefold.Pipeline.{Outbox, Deps, Decided, Sink}
use stonefold.Pipeline.Claims.{Reservation, claimed, refusal}
use stonefold.Pipeline.Claims.Laws.{IsReadable, reserve_claim-Settles, release_claim-Settles}
use stonefold.Pipeline.Advised.{sunk, stamp}
use stonefold.Pipeline.Commit.{
  Ending, Holding, holding, unreserved, staging_expiry, now_of, terminal, denied, search_holds,
  search_within, find_duplicate_hold, after_reserve, reserve_plan, claim_for,
}
use stonefold.Pipeline.Commit.Steps.{
  unstaged, hold_ends, hold_staged, stage_hold, new_hold, bumped_hold, deduped_hold, commit_hold,
  effect_staged, stage_effect, new_effect, commit_effect,
}
use stonefold.Pipeline.Audited.{
  Settles, Settled-bind, Settled-ask, Settled-return, Anything, Ends, Ends-bind, Mirrors,
}

-- The evidence that the commit may reserve from can be read.
abbrev pub Reads : {W : Type 0} → Deps W → Decided → Type 0
Reads d k = (plan : Fields) → claim_evidence k.gate_results ≡ some plan → IsReadable d plan

pub sunk-Mirrors :
    (sink : Sink) (r : EvalResult) (rec : AuditRecord) → Mirrors r rec → Mirrors r (sunk sink rec)
unfolding sunk stamp
sunk-Mirrors none r rec h = h
sunk-Mirrors (some s) r rec h = record {
  decision = h.decision;
  gates = h.gates;
  reason_code = h.reason_code;
  retry_class = h.retry_class;
  scope_applied = h.scope_applied;
}

module _ {W : Type 0} (d : Deps W) (sink : Sink) (actor : Actor) (session : Session) where
  pub terminal-Ends :
      (decision : Decision) (rule : String) (call : RawCall) (resolved : Option ResolvedAction)
      (e : Ending)
      → Ends (terminal d sink actor session decision rule call resolved e)
  unfolding terminal build_record
  terminal-Ends decision rule call resolved e w = record {
    result = _;
    written = _;
    returned = refl;
    once = refl;
    mirrors = sunk-Mirrors sink _ _ (record {
      decision = refl;
      gates = refl;
      reason_code = refl;
      retry_class = refl;
      scope_applied = refl;
    });
  }

  module _ (env : Option RequestEnv) (k : Decided) where
    search_holds-Settles :
        (ob : Outbox W) (a : ResolvedAction) (window now : ℕ) (key : Option HoldIdentity)
        → Settles Anything (search_holds d sink actor session env ob k a window now key)
    unfolding search_holds
    search_holds-Settles ob a window now none = Settled-return _ tt
    search_holds-Settles ob a window now (some key) =
        Settled-bind _ _ (Settled-ask {P = Anything} _ _ refl (λ _. tt))
          (λ _ _. Settled-return _ tt)

    search_within-Settles :
        (ob : Outbox W) (a : ResolvedAction) (window now : Option ℕ)
        → Settles Anything (search_within d sink actor session env ob k a window now)
    unfolding search_within
    search_within-Settles ob a (some window) (some now) =
        search_holds-Settles ob a window now (hold_identity d.text a k.gate_results)
    search_within-Settles ob a (some window) none = Settled-return _ tt
    search_within-Settles ob a none now = Settled-return _ tt

    after_reserve-Settles :
        (r : Reservation) → Settles Anything (after_reserve d sink actor session env r)
    unfolding after_reserve
    after_reserve-Settles (claimed c) = Settled-return _ tt
    after_reserve-Settles (refusal rule) = Settled-return _ tt

    reserve_plan-Settles :
        (plan : Option Fields)
        → ((p : Fields) → plan ≡ some p → IsReadable d p)
        → Settles Anything (reserve_plan d sink actor session env plan)
    unfolding reserve_plan
    reserve_plan-Settles none h = Settled-return _ tt
    reserve_plan-Settles (some plan) h =
        Settled-bind _ _ (reserve_claim-Settles d plan (h plan refl))
          (λ r _. after_reserve-Settles r)

    claimed-Settles :
        (c : Option ObligationClaim)
        → Reads d k
        → k.claim ≡ c
        → Settles Anything (claim_for d sink actor session env k)
    unfolding claim_for
    claimed-Settles none h e w =
        rw (claim_for, e) (reserve_plan-Settles (claim_evidence k.gate_results) h w)
    claimed-Settles (some c) h e w = rw (claim_for, e) (Settled-return _ tt w)

    module _ (reads : Reads d k) (a : ResolvedAction) where
      pub claim_for-Settles : Settles Anything (claim_for d sink actor session env k)
      claim_for-Settles = claimed-Settles k.claim reads refl

      pub denied-Ends : (rule : String) → Ends (denied d sink actor session k a rule)
      denied-Ends rule = terminal-Ends _ _ _ _ _

      unstaged-Ends : (c : Option ObligationClaim) → Ends (unstaged d sink actor session env k a c)
      unfolding unstaged
      unstaged-Ends c = Ends-bind _ _ (release_claim-Settles d c) (λ _ _. denied-Ends _)

      hold_staged-Ends :
          (c : Option ObligationClaim) (answer : Call String)
          → Ends (hold_staged d sink actor session env k a c answer)
      unfolding hold_staged hold_ends
      hold_staged-Ends c raised = unstaged-Ends c
      hold_staged-Ends c (ok ticket) = terminal-Ends _ _ _ _ _

      stage_hold-Ends :
          (ob : Outbox W) (at : Option ℕ) (c : Holding)
          → Ends (stage_hold d sink actor session env k a ob at c)
      unfolding stage_hold
      stage_hold-Ends ob at (unreserved rule) = denied-Ends rule
      stage_hold-Ends ob at (holding c) =
          Ends-bind _ _ (Settled-ask {P = Anything} _ _ refl (λ _. tt))
            (λ answer _. hold_staged-Ends c answer)

      new_hold-Ends :
          (ob : Outbox W) (expiry : Call (Option ℕ))
          → Ends (new_hold d sink actor session env k a ob expiry)
      unfolding new_hold
      new_hold-Ends ob raised = denied-Ends _
      new_hold-Ends ob (ok at) = Ends-bind _ _ claim_for-Settles (λ c _. stage_hold-Ends ob at c)

      bumped_hold-Ends :
          (ob : Outbox W) (row : PendingAction) (answer : Call PendingAction)
          → Ends (bumped_hold d sink actor session env k a ob row answer)
      unfolding bumped_hold hold_ends
      bumped_hold-Ends ob row raised = new_hold-Ends ob (staging_expiry d.freshness env a)
      bumped_hold-Ends ob row (ok row') = terminal-Ends _ _ _ _ _

      deduped_hold-Ends :
          (ob : Outbox W) (row : Option PendingAction)
          → Ends (deduped_hold d sink actor session env k a ob row)
      unfolding deduped_hold
      deduped_hold-Ends ob none = new_hold-Ends ob (staging_expiry d.freshness env a)
      deduped_hold-Ends ob (some row) =
          Ends-bind _ _ (Settled-ask {P = Anything} _ _ refl (λ _. tt))
            (λ answer _. bumped_hold-Ends ob row answer)

      pub commit_hold-Ends :
          (ob : Option (Outbox W)) → Ends (commit_hold d sink actor session env k a ob)
      unfolding commit_hold hold_ends find_duplicate_hold
      commit_hold-Ends none = terminal-Ends _ _ _ _ _
      commit_hold-Ends (some ob) =
          Ends-bind _ _ (search_within-Settles ob a d.dedupe_window (now_of env))
            (λ row _. deduped_hold-Ends ob row)

      effect_staged-Ends :
          (c : Option ObligationClaim) (answer : Call String)
          → Ends (effect_staged d sink actor session env k a c answer)
      unfolding effect_staged
      effect_staged-Ends c raised = unstaged-Ends c
      effect_staged-Ends c (ok ticket) = terminal-Ends _ _ _ _ _

      stage_effect-Ends :
          (ob : Outbox W) (at : Option ℕ) (c : Holding)
          → Ends (stage_effect d sink actor session env k a ob at c)
      unfolding stage_effect
      stage_effect-Ends ob at (unreserved rule) = denied-Ends rule
      stage_effect-Ends ob at (holding c) =
          Ends-bind _ _ (Settled-ask {P = Anything} _ _ refl (λ _. tt))
            (λ answer _. effect_staged-Ends c answer)

      new_effect-Ends :
          (ob : Outbox W) (expiry : Call (Option ℕ))
          → Ends (new_effect d sink actor session env k a ob expiry)
      unfolding new_effect
      new_effect-Ends ob raised = denied-Ends _
      new_effect-Ends ob (ok at) =
          Ends-bind _ _ claim_for-Settles (λ c _. stage_effect-Ends ob at c)

      pub commit_effect-Ends :
          (ob : Option (Outbox W)) → Ends (commit_effect d sink actor session env k a ob)
      unfolding commit_effect
      commit_effect-Ends none = terminal-Ends _ _ _ _ _
      commit_effect-Ends (some ob) = new_effect-Ends ob (staging_expiry d.freshness env a)
