-- ===== src/Pipeline/Decide.antt =====
-- `_decide` of stonefold_core/pipeline.py: steps 1 to 5 for one operation, in the order resolve, kill
-- pre-check, authorize, scope, gates, kill.
pub mod Laws
pub mod Halted
use stonefold.Prelude.{
  String, Bool, true, false, Option, none, some, List, [], ◌∷◌, ◌+s◌, if◌then◌else◌, str_eq,
}
use stonefold.Values.{Fields, empty}
use stonefold.Models.Enums.{Decision, Outcome, FeedbackLevel, is_effect}
use stonefold.Models.Records.{
  RawCall, ResolvedAction, Actor, Session, GateResult, RequestEnv, GateOutcome,
}
use stonefold.Failure.{Call, ok, raised, should_fail_closed}
use stonefold.Compiler.{AuthzResult, authorize_with}
use stonefold.Kill.{KillTarget, KillOrder, pre_target, target_of}
use stonefold.Pipeline.{
  Event, kill_read, target_fetched, gates_run, Act, ◌>>=◌, return, raise, ask, ScopePredicate,
  PolicyView, Connectors, Deps, Decided, decided_as, agent_name, failure_mode,
}

-- RequestEnv()
abbrev pub no_env : RequestEnv
no_env = record { resource = empty; context = empty; now = none; sink = none; cost = none }

abbrev env_or : Option RequestEnv → RequestEnv
env_or none = no_env
env_or (some env) = env

-- `text or default`
abbrev or_text : String → String → String
or_text s default = if str_eq s "" then default else s

module _ {W : Type 0} (d : Deps W) (actor : Actor) (session : Session) where
  -- kill.matches under a guard; without a store there is no order
  ask_kill :
      Option (KillTarget → W → Call (Option KillOrder) × W)
      → KillTarget
      → Act W (Call (Option KillOrder))
  ask_kill none target = return (ok none)
  ask_kill (some matches) target = ask (kill_read target) (matches target)

  -- What the steps after the scope know of the operation.
  abbrev scoped :
      RawCall → ResolvedAction → FeedbackLevel → Option ScopePredicate → Decision → String → Decided
  scoped call a fb pred decision rule = record (decided_as call (some a) decision rule) {
    scope_pred = pred;
    scope_applied = elim pred [ none ↦ [] | some p ↦ (a.resource +s ":" +s p.name) ∷ [] ];
    feedback = fb;
  }

  -- step 5
  kill_verdict : Decided → ResolvedAction → Call (Option KillOrder) → Decided
  kill_verdict allowed a (ok none) = allowed
  kill_verdict allowed a (ok (some order)) = record allowed {
    decision = Decision.halt;
    rule = "kill:" +s order.id;
    outcome = "halted";
  }
  kill_verdict allowed a raised =
      if should_fail_closed (some a) (failure_mode d)
      then record allowed {
        decision = Decision.halt;
        rule = "kill-unavailable";
        outcome = "halted";
      }
      else allowed

  unfoldable pub chokepoint : Decided → ResolvedAction → Act W Decided
  unfolding ask_kill kill_verdict
  chokepoint allowed a =
      ask_kill d.kill (target_of a actor session (agent_name d))
      >>= (λ answer. return (kill_verdict allowed a answer))

  -- step 4, at what the gates answered
  gate_verdict : Decided → ResolvedAction → Outcome → GateOutcome → Act W Decided
  gate_verdict allowed a Outcome.fail o = return (record allowed {
    decision = Decision.deny;
    rule = or_text o.reason "gate-fail";
    gate_results = o.results;
  })
  gate_verdict allowed a Outcome.hold o = return (record allowed {
    decision = Decision.hold;
    rule = or_text o.reason "gate-hold";
    gate_results = o.results;
    approval = o.approval;
    releases = o.releases;
  })
  gate_verdict allowed a Outcome.pass o = chokepoint (record allowed { gate_results = o.results }) a

  -- the call of the gate engine is under no guard: what it raises leaves `_decide`
  gates_answered : Decided → ResolvedAction → Call GateOutcome → Act W Decided
  unfolding gate_verdict
  gates_answered allowed a raised = raise
  gates_answered allowed a (ok o) = gate_verdict allowed a o.outcome o

  with_gates :
      Option (ResolvedAction → Actor → Session → RequestEnv → W → Call GateOutcome × W)
      → Option RequestEnv
      → Decided
      → ResolvedAction
      → Act W Decided
  unfolding gates_answered
  with_gates none env allowed a = chokepoint allowed a
  with_gates (some evaluate) env allowed a =
      ask (gates_run a) (evaluate a actor session (env_or env)) >>= gates_answered allowed a

  unfoldable pub run_gates : Option RequestEnv → Decided → ResolvedAction → Act W Decided
  unfolding with_gates
  run_gates env allowed a = with_gates d.gates env allowed a

  -- step 3: the probe of an effect's target
  probe_verdict :
      (Decision → String → Decided)
      → ResolvedAction
      → Act W Decided
      → Call (Option Fields)
      → Act W Decided
  probe_verdict refuse a go_on raised =
      if should_fail_closed (some a) (failure_mode d)
      then return (refuse Decision.deny "scope-unavailable")
      else go_on
  probe_verdict refuse a go_on (ok none) = return (refuse Decision.deny "scope-denied")
  probe_verdict refuse a go_on (ok (some target)) = go_on

  probe_with :
      Option (Connectors W)
      → (Decision → String → Decided)
      → ResolvedAction
      → ScopePredicate
      → Act W Decided
      → Act W Decided
  unfolding probe_verdict
  probe_with none refuse a p go_on = go_on
  probe_with (some c) refuse a p go_on =
      if is_effect a.kind
      then (ask (target_fetched a) (c.fetch_target a (some p) actor)
          >>= probe_verdict refuse a go_on)
      else go_on

  probe :
      (Decision → String → Decided)
      → ResolvedAction
      → Option ScopePredicate
      → Act W Decided
      → Act W Decided
  unfolding probe_with
  probe refuse a none go_on = go_on
  probe refuse a (some p) go_on = probe_with d.connectors refuse a p go_on

  scope_of : ResolvedAction → Option ScopePredicate
  scope_of a = elim d.scopes [ none ↦ none | some scope_for ↦ scope_for a.resource ]

  -- steps 2 to 5
  unfoldable pub authorized :
      RawCall → Option RequestEnv → ResolvedAction → PolicyView → Act W Decided
  unfolding probe scope_of
  authorized call env a policy =
      let fb = policy.feedback_for a in
      let authz = authorize_with policy.allow policy.deny a in
      let pred = scope_of a in
      let at = scoped call a fb pred in
      if authz.allowed
      then probe at a pred (run_gates env (at Decision.allow authz.rule) a)
      else return (record (decided_as call (some a) Decision.deny authz.rule) { feedback = fb })

  under : Option PolicyView → RawCall → Option RequestEnv → ResolvedAction → Act W Decided
  under none call env a = return (decided_as call (some a) Decision.deny "default-deny")
  under (some policy) call env a = authorized call env a policy

  -- a store error of the pre-check is swallowed
  pre_verdict :
      RawCall → Option RequestEnv → ResolvedAction → Call (Option KillOrder) → Act W Decided
  unfolding under
  pre_verdict call env a (ok (some order)) =
      return (record (decided_as call (some a) Decision.halt ("kill:" +s order.id)) {
        outcome = "halted";
      })
  pre_verdict call env a (ok none) = under d.policy call env a
  pre_verdict call env a raised = under d.policy call env a

  decide_at : RawCall → Option RequestEnv → Option ResolvedAction → Act W Decided
  unfolding pre_verdict ask_kill
  decide_at call env none = return (decided_as call none Decision.deny "unknown-action")
  decide_at call env (some a) =
      ask_kill d.kill (pre_target (agent_name d) session.id) >>= pre_verdict call env a

  unfoldable pub decide : RawCall → Option RequestEnv → Act W Decided
  unfolding decide_at
  decide call env = decide_at call env (d.resolve call)
