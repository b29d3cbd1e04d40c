-- ===== src/Gates/Engine/Revalidate.antt =====
-- stonefold_gates/engine.py: the gates that are asked again when a staged row is dispatched.
use stonefold.Prelude.{
  String, Bool, true, false, Option, none, some, List, [], ◌∷◌, if◌then◌else◌, str_eq, contains,
}
use stonefold.Values.{Value}
use stonefold.Models.Enums.{Outcome}
use stonefold.Models.Records.{GateResult, ObligationClaim}
use stonefold.Failure.{Call, ok, raised, should_fail_closed}
use stonefold.Obligation.{ReserveOutcome}
use stonefold.Condition.Evaluate.{Eval, value, raise}
use stonefold.Gates.{GatePy, GateContext, Answer, passed, failed}
use stonefold.Gates.Engine.{run_one}

-- `VOLATILE_GATES` of stonefold_core/freshness.py
abbrev pub volatile_gates : List String
volatile_gates =
    "allowlist" ∷ "denylist" ∷ "window" ∷ "precondition" ∷ "emissionControl" ∷ "requireMatch" ∷ []

is_claimed : Option ObligationClaim → Bool
is_claimed none = false
is_claimed (some c) = true

reserve_verdict : ReserveOutcome → GateResult
reserve_verdict ReserveOutcome.reserved = passed "requireMatch" "reservation live"
reserve_verdict _ = record (failed "requireMatch" "reservation lost") { code = "no-match" }

module _ {W : Type 0} (py : GatePy) (ctx : GateContext W) where
  unverifiable : GateResult
  unverifiable =
      if should_fail_closed (some ctx.request.resolved) ctx.request.failure_mode
      then failed "requireMatch" "fail-closed"
      else passed "requireMatch" "failureMode=open: liveness unverifiable, skipped"

  probed : Call ReserveOutcome → GateResult
  unfolding unverifiable reserve_verdict
  probed raised = unverifiable
  probed (ok outcome) = reserve_verdict outcome

  -- `_reservation_liveness`
  unfoldable pub reservation_liveness : ObligationClaim → W → GateResult × W
  unfolding unverifiable probed
  reservation_liveness claim w = elim (ctx.reservations claim.registry) [
    | none ↦ (unverifiable, w)
    | some reserve ↦ let (answer, w') = reserve claim.ref claim.intent_id w in (probed answer, w')
  ]

  ask_claim : Option ObligationClaim → String → Value → W → Answer W
  ask_claim none name cfg w = run_one py ctx name cfg w
  ask_claim (some claim) name cfg w =
      if str_eq name "requireMatch"
      then (let (r, w') = reservation_liveness claim w in (value r, w'))
      else run_one py ctx name cfg w

  -- `revalidate_volatile`: the first result that is no PASS, or `none`
  unfoldable pub revalidate_volatile :
      Option ObligationClaim → List (String × Value) → W → Eval (Option GateResult) × W
  unfolding ask_claim
  revalidate_volatile claim [] w = (value none, w)
  revalidate_volatile claim ((name, cfg) ∷ gates) w = elim (contains volatile_gates name) [
    | false ↦ revalidate_volatile claim gates w
    | true ↦
        let (answer, w') = ask_claim claim name cfg w in
        elim answer [
          | raise e ↦ (raise e, w')
          | value r ↦ elim r.outcome [
            | Outcome.pass ↦ revalidate_volatile claim gates w'
            | Outcome.fail ↦ (value (some r), w')
            | Outcome.hold ↦ (value (some r), w')
          ]
        ]
  ]
