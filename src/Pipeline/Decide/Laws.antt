-- ===== src/Pipeline/Decide/Laws.antt =====
-- What the decide phase comes to, step by step: a verdict that the commit phase can take, or the
-- exception of the gate engine.
use stonefold.Prelude.{
  ◌≡◌, refl, String, true, Option, none, some, List, [], Bool-cases, inl, inr, ◌⊎◌, sym, ◌∙◌,
}
use stonefold.Values.{Fields}
use stonefold.Models.Enums.{Decision, Outcome, is_refusal, is_effect}
use stonefold.Models.Records.{
  RawCall, ResolvedAction, Actor, Session, RequestEnv, GateOutcome, GateResult,
}
use stonefold.Failure.{Call, ok, raised, should_fail_closed}
use stonefold.Compiler.{authorize_with}
use stonefold.Kill.{KillTarget, KillOrder}
use stonefold.Pipeline.{
  Act, ScopePredicate, PolicyView, Connectors, Deps, Decided, failure_mode, return,
}
use stonefold.Pipeline.Decide.{
  ask_kill, scoped, kill_verdict, chokepoint, gate_verdict, gates_answered, with_gates, env_or,
  run_gates, probe_verdict, probe_with, probe, scope_of, authorized, under, pre_verdict, decide_at,
  decide,
}
use stonefold.Pipeline.Audited.{
  Looks, Settled, is_look, Settled-bind, Settled-ask, Settled-return, Anything,
}
use stonefold.Pipeline.Audited.Tries.{Tries, Tries-bind, Escaped}

-- A verdict that the commit phase can take: unresolved calls are refused, and nothing is reserved.
pub record IsVerdict (Good : List GateResult → Type 0) (k : Decided) : Type 0 where
  pub traced : Good k.gate_results
  pub addressed : is_refusal k.decision ≡ true ⊎ (a : ResolvedAction) × (k.resolved ≡ some a)
  pub unclaimed : k.claim ≡ none

-- The gate engine raised at some question on the actor and the session.
abbrev pub GatesRaised : {W : Type 0} → Deps W → Actor → Session → Type 0
GatesRaised {W} d actor session =
    (evaluate : ResolvedAction → Actor → Session → RequestEnv → W → Call GateOutcome × W)
    × (a : ResolvedAction) × (env : RequestEnv) × (w : W) × (d.gates ≡ some evaluate)
    × ((evaluate a actor session env w).0 ≡ raised)

module _ {W : Type 0} (d : Deps W) (actor : Actor) (session : Session)
    (Good : List GateResult → Type 0) (none_good : Good []) where
  abbrev GatesRaise : Type 0
  GatesRaise = GatesRaised d actor session

  -- What the gates answer, where they do, is traced.
  abbrev GoodAnswer : Call GateOutcome → Type 0
  GoodAnswer answer = (o : GateOutcome) → answer ≡ ok o → Good o.results

  abbrev Answered :
      (ResolvedAction → Actor → Session → RequestEnv → W → Call GateOutcome × W)
      → ResolvedAction
      → RequestEnv
      → Call GateOutcome
      → Type 0
  Answered evaluate a env answer = (w : W) × ((evaluate a actor session env w).0 ≡ answer)

  ask_kill-Looks :
      (kill : Option (KillTarget → W → Call (Option KillOrder) × W)) (target : KillTarget)
      → Looks Anything (ask_kill d actor session kill target)
  unfolding ask_kill
  ask_kill-Looks none target = Settled-return _ tt
  ask_kill-Looks (some matches) target = Settled-ask {P = Anything} _ _ refl (λ _. tt)

  kill_verdict-IsVerdict :
      (k : Decided) (a : ResolvedAction) (answer : Call (Option KillOrder))
      → (k.resolved ≡ some a)
      → (k.claim ≡ none)
      → Good k.gate_results
      → IsVerdict Good (kill_verdict d actor session k a answer)
  unfolding kill_verdict
  kill_verdict-IsVerdict k a (ok none) h c g = record {
    traced = g;
    addressed = inr (a, h);
    unclaimed = c;
  }
  kill_verdict-IsVerdict k a (ok (some order)) h c g = record {
    traced = g;
    addressed = inl refl;
    unclaimed = c;
  }
  kill_verdict-IsVerdict k a raised h c g =
      elim (Bool-cases (should_fail_closed (some a) (failure_mode d))) [
        | inl e ↦ rw e (record { traced = g; addressed = inl refl; unclaimed = c })
        | inr e ↦ rw e (record { traced = g; addressed = inr (a, h); unclaimed = c })
      ]

  module _ (k : Decided) (a : ResolvedAction) (h : k.resolved ≡ some a) (c : k.claim ≡ none)
      (g : Good k.gate_results) where
    chokepoint-Looks : Looks (IsVerdict Good) (chokepoint d actor session k a)
    unfolding chokepoint
    chokepoint-Looks =
        Settled-bind _ _ (ask_kill-Looks d.kill _)
          (λ answer _. Settled-return _ (kill_verdict-IsVerdict k a answer h c g))

  gate_verdict-Looks :
      (k : Decided) (a : ResolvedAction) (outcome : Outcome) (o : GateOutcome)
      → k.resolved ≡ some a
      → k.claim ≡ none
      → Good o.results
      → Looks (IsVerdict Good) (gate_verdict d actor session k a outcome o)
  unfolding gate_verdict
  gate_verdict-Looks k a Outcome.fail o h c g =
      Settled-return _ (record { traced = g; addressed = inl refl; unclaimed = c })
  gate_verdict-Looks k a Outcome.hold o h c g =
      Settled-return _ (record { traced = g; addressed = inr (a, h); unclaimed = c })
  gate_verdict-Looks k a Outcome.pass o h c g =
      chokepoint-Looks (record k { gate_results = o.results }) a h c g

  gates_answered-Tries :
      (k : Decided) (a : ResolvedAction) (answer : Call GateOutcome)
      → k.resolved ≡ some a
      → k.claim ≡ none
      → GoodAnswer answer
      → (answer ≡ raised → GatesRaise)
      → Tries GatesRaise (IsVerdict Good) (gates_answered d actor session k a answer)
  unfolding gates_answered
  gates_answered-Tries k a raised h c g x w =
      inr (record { lost = refl; silent = refl; cause = x refl })
  gates_answered-Tries k a (ok o) h c g x w =
      inl (gate_verdict-Looks k a o.outcome o h c (g o refl) w)

  with_gates-Tries :
      (gates : Option (ResolvedAction → Actor → Session → RequestEnv → W → Call GateOutcome × W))
      (env : Option RequestEnv) (k : Decided) (a : ResolvedAction)
      → d.gates ≡ gates
      → k.resolved ≡ some a
      → k.claim ≡ none
      → Good k.gate_results
      → ((evaluate : ResolvedAction → Actor → Session → RequestEnv → W → Call GateOutcome × W)
            (w : W)
          → gates ≡ some evaluate
          → GoodAnswer (evaluate a actor session (env_or env) w).0)
      → Tries GatesRaise (IsVerdict Good) (with_gates d actor session gates env k a)
  unfolding with_gates
  with_gates-Tries none env k a wired h c g sound = λ w. inl (chokepoint-Looks k a h c g w)
  with_gates-Tries (some evaluate) env k a wired h c g sound =
      Tries-bind {P = Answered evaluate a (env_or env)} _ _ (Settled-ask _ _ refl (λ w. (w, refl)))
        (λ answer p.
          gates_answered-Tries k a answer h c (rw (sym (p.1)) (sound evaluate p.0 refl))
            (λ e. (evaluate, a, env_or env, p.0, wired, p.1 ∙ e)))

  finished : (k : Decided) → IsVerdict Good k → Tries GatesRaise (IsVerdict Good) (return {W = W} k)
  finished k p w = inl (Settled-return k p w)

  module _ (refuse : Decision → String → Decided) (a : ResolvedAction) (go_on : Act W Decided)
      (refused : (rule : String) → IsVerdict Good (refuse Decision.deny rule))
      (h : Tries GatesRaise (IsVerdict Good) go_on) where
    probe_verdict-Tries :
        (answer : Call (Option Fields))
        → Tries GatesRaise (IsVerdict Good) (probe_verdict d actor session refuse a go_on answer)
    unfolding probe_verdict
    probe_verdict-Tries (ok none) = finished _ (refused _)
    probe_verdict-Tries (ok (some target)) = h
    probe_verdict-Tries raised = elim (Bool-cases (should_fail_closed (some a) (failure_mode d))) [
      | inl e ↦ rw e (finished _ (refused _))
      | inr e ↦ rw e h
    ]

    probe_with-Tries :
        (connectors : Option (Connectors W)) (p : ScopePredicate)
        → Tries GatesRaise (IsVerdict Good) (probe_with d actor session connectors refuse a p go_on)
    unfolding probe_with
    probe_with-Tries none p = h
    probe_with-Tries (some c) p = elim (Bool-cases (is_effect a.kind)) [
      | inl e ↦ rw e (
          Tries-bind _ _ (Settled-ask {P = Anything} _ _ refl (λ _. tt))
            (λ answer _. probe_verdict-Tries answer))
      | inr e ↦ rw e h
    ]

    probe-Tries :
        (p : Option ScopePredicate)
        → Tries GatesRaise (IsVerdict Good) (probe d actor session refuse a p go_on)
    unfolding probe
    probe-Tries none = h
    probe-Tries (some p) = probe_with-Tries d.connectors p

  module _
      (sound : (evaluate : ResolvedAction → Actor → Session → RequestEnv → W → Call GateOutcome × W)
          (a : ResolvedAction) (env : RequestEnv) (w : W)
        → d.gates ≡ some evaluate
        → GoodAnswer (evaluate a actor session env w).0) where
    authorized-Tries :
        (call : RawCall) (env : Option RequestEnv) (a : ResolvedAction) (policy : PolicyView)
        → Tries GatesRaise (IsVerdict Good) (authorized d actor session call env a policy)
    unfolding authorized run_gates
    authorized-Tries call env a policy =
        let authz = authorize_with policy.allow policy.deny a in
        let at =
          scoped d actor session call a (policy.feedback_for a) (scope_of d actor session a) in
        elim (Bool-cases authz.allowed) [
          | inl e ↦ rw e (
              probe-Tries at a _
                (λ rule. record { traced = none_good; addressed = inl refl; unclaimed = refl })
                (with_gates-Tries d.gates env (at Decision.allow authz.rule) a refl refl refl
                  none_good (λ evaluate w e. sound evaluate a (env_or env) w e))
                (scope_of d actor session a))
          | inr e ↦
              rw e
                (finished _ (record { traced = none_good; addressed = inl refl; unclaimed = refl }))
        ]

    under-Tries :
        (policy : Option PolicyView) (call : RawCall) (env : Option RequestEnv) (a : ResolvedAction)
        → Tries GatesRaise (IsVerdict Good) (under d actor session policy call env a)
    unfolding under
    under-Tries none call env a =
        finished _ (record { traced = none_good; addressed = inl refl; unclaimed = refl })
    under-Tries (some policy) call env a = authorized-Tries call env a policy

    pre_verdict-Tries :
        (call : RawCall) (env : Option RequestEnv) (a : ResolvedAction)
        (answer : Call (Option KillOrder))
        → Tries GatesRaise (IsVerdict Good) (pre_verdict d actor session call env a answer)
    unfolding pre_verdict
    pre_verdict-Tries call env a (ok (some order)) =
        finished _ (record { traced = none_good; addressed = inl refl; unclaimed = refl })
    pre_verdict-Tries call env a (ok none) = under-Tries d.policy call env a
    pre_verdict-Tries call env a raised = under-Tries d.policy call env a

    decide_at-Tries :
        (call : RawCall) (env : Option RequestEnv) (resolved : Option ResolvedAction)
        → Tries GatesRaise (IsVerdict Good) (decide_at d actor session call env resolved)
    unfolding decide_at
    decide_at-Tries call env none =
        finished _ (record { traced = none_good; addressed = inl refl; unclaimed = refl })
    decide_at-Tries call env (some a) =
        Tries-bind _ _ (ask_kill-Looks d.kill _) (λ answer _. pre_verdict-Tries call env a answer)

    -- Whatever the dependencies answer, the decide phase calls none but the kill store, the gate engine
    -- and the target's probe, and returns a verdict, unless the gate engine itself raised: no exception
    -- of the others leaves it. A verdict that is no refusal is resolved, and none holds a reservation.
    pub decide-Looks :
        (call : RawCall) (env : Option RequestEnv) (w : W)
        → Settled is_look (IsVerdict Good) (decide d actor session call env w)
          ⊎ Escaped is_look (GatesRaised d actor session) (decide d actor session call env w)
    unfolding decide
    decide-Looks call env = decide_at-Tries call env (d.resolve call)
