-- ===== src/Pipeline/Enforce/Killed.antt =====
-- An order that matches before resolution halts the call.
use stonefold.Prelude.{
  ◌≡◌, refl, String, true, Option, none, some, [], ◌∷◌, arith, ap, ◌∙◌, ◌+s◌, strip_prefix-kill,
}
use stonefold.Models.Enums.{Decision, EnforcementMode}
use stonefold.Models.Records.{
  RawCall, ResolvedAction, Actor, Session, RequestEnv, EvalResult, AuditRecord,
}
use stonefold.Failure.{Call, ok}
use stonefold.Kill.{KillTarget, KillOrder, pre_target}
use stonefold.Pipeline.{kill_read, wrote, Run, ◌>>=◌, Deps, Decided, Sink, agent_name}
use stonefold.Pipeline.Advised.{kill_caused}
use stonefold.Pipeline.Advised.Laws.{as_advised-killed}
use stonefold.Pipeline.Decide.{decide}
use stonefold.Pipeline.Decide.Halted.{halted, decide-halted}
use stonefold.Pipeline.Commit.Steps.Laws.{commit-refused}
use stonefold.Pipeline.Commit.{terminal}
use stonefold.Pipeline.Audited.{resume-returned}
use stonefold.Pipeline.Enforce.{
  stamp_feedback, commit_stamped, in_mode, commit_in_mode, enforce_whole,
}

kill_caused-order : (id : String) → kill_caused ("kill:" +s id) ≡ true
unfolding kill_caused
kill_caused-order id = ground (arith, strip_prefix-kill id)

-- The run ends in a halt under the order, and all that it does is to write one record.
pub record Halts {W : Type 0} (order : KillOrder) (run : Run W EvalResult) : Type 0 where
  pub result : EvalResult
  pub written : AuditRecord
  pub returned : run.value ≡ some result
  pub decision : result.decision ≡ Decision.halt
  pub rule : result.rule ≡ "kill:" +s order.id
  pub only_wrote : run.events ≡ wrote written ∷ []

module _ {W : Type 0} (d : Deps W) (actor : Actor) (session : Session) (env : Option RequestEnv)
    (call : RawCall) (a : ResolvedAction) (order : KillOrder) where
  commit_stamped-Halts :
      (sink : Sink) (w : W)
      → Halts order (commit_stamped d actor session env sink (halted call a order) w)
  unfolding commit_stamped ◌>>=◌ terminal stamp_feedback
  commit_stamped-Halts sink w =
      rw (commit-refused d sink actor session env (halted call a order) refl) (record {
        result = _;
        written = _;
        returned = refl;
        decision = refl;
        rule = refl;
        only_wrote = refl;
      })

  commit_in_mode-Halts :
      (w : W) → Halts order (commit_in_mode d actor session env (halted call a order) w)
  unfolding commit_in_mode in_mode
  commit_in_mode-Halts w =
      elim d.enforcement
        as (λ m. Halts order (
          commit_stamped d actor session env (in_mode d actor session env m (halted call a order)).1
            (in_mode d actor session env m (halted call a order)).0 w)) [
              | EnforcementMode.enforced ↦ commit_stamped-Halts none w
              | EnforcementMode.advisory ↦
                  rw (as_advised-killed d (halted call a order) (kill_caused-order order.id))
                    (commit_stamped-Halts _ w)
            ]

  -- In an enforcing and in an advisory deployment alike: where an order matches the agent and the
  -- session of a resolvable call, the call ends in a HALT under that order, and between the read of
  -- the kill store and the one audit record nothing else is asked of any dependency.
  pub killed-halts :
      (matches : KillTarget → W → Call (Option KillOrder) × W) (w : W)
      → d.resolve call ≡ some a
      → d.kill ≡ some matches
      → (matches (pre_target (agent_name d) session.id) w).0 ≡ ok (some order)
      → (r : EvalResult) × (rec : AuditRecord) × ((enforce_whole d actor session env call w).value
          ≡ some r)
        × (r.decision ≡ Decision.halt)
        × (r.rule ≡ "kill:" +s order.id)
        × ((enforce_whole d actor session env call w).events
            ≡ kill_read (pre_target (agent_name d) session.id) ∷ wrote rec ∷ [])
  unfolding enforce_whole
  killed-halts matches w known store answer =
      let e = decide-halted d actor session env call a order matches w known store answer in
      let h = commit_in_mode-Halts (decide d actor session call env w).world in
      let s =
        resume-returned (decide d actor session call env) (commit_in_mode d actor session env) w
          (halted call a order) (ap (λ (r : Run W Decided). r.value) e) in
      (
        h.result,
        h.written,
        ap (λ (r : Run W EvalResult). r.value) s ∙ h.returned,
        h.decision,
        h.rule,
        rw s (rw (ap (λ (r : Run W Decided). r.events) e, h.only_wrote) refl),
      )
