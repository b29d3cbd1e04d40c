-- ===== src/Gates/Checks.antt =====
-- stonefold_gates/gates.py: the gates that run named checks, and the guard of transitions.
pub mod Laws
use Prim.Native.Char.{Char}
use stonefold.Prelude.{
  ℕ, String, Bool, true, false, not, Option, none, some, List, [], ◌∷◌, if◌then◌else◌, str_eq, ◌+s◌,
  is_some,
}
use stonefold.Values.{Value, Fields, empty, field, get, truthy, to_list}
use stonefold.Models.Enums.{Outcome, RetryClass, FailureMode, is_pass, holds}
use stonefold.Models.Records.{GateResult}
use stonefold.Failure.{Call, ok, raised, is_closed}
use stonefold.Condition.Evaluate.{Eval, value, raise, foreign, ◌>>=◌, plain}
use stonefold.Condition.Evaluate.Run.{py_eq}
use stonefold.Gates.{
  GatePy, CheckResult, CheckAnswer, two_valued, three_valued, CheckDecl, GateRegistry, Request,
  GateContext, Answer, passed, failed, held, cfg_get, is_dict,
}
use stonefold.Gates.Reads.{ReadDecl, parse_reads, check_reads, text_or}

-- registry.py
find_check : List (String × CheckDecl) → String → Option CheckDecl
find_check [] name = none
find_check ((n, d) ∷ rest) name =
    let later = find_check rest name in if str_eq n name then some d else later

class_of : List (String × RetryClass) → String → RetryClass
class_of [] code = RetryClass.terminal
class_of ((c, cls) ∷ rest) code =
    let later = class_of rest code in if str_eq c code then cls else later

unfoldable pub check_hold_capable : GateRegistry → String → Bool
unfolding find_check
check_hold_capable r name = elim (find_check r.checks name) [
  | none ↦ false
  | some d ↦ d.hold_capable
]

unfoldable pub reason_class : GateRegistry → String → String → RetryClass
unfolding find_check class_of
reason_class r name code = elim (find_check r.checks name) [
  | none ↦ RetryClass.terminal
  | some d ↦ class_of d.reason_codes code
]

unfoldable pub is_true : Option Value → Bool
is_true (some (Value.bool b)) = b
is_true _ = false

result_if : Bool → CheckResult
result_if b = record {
  outcome = if b then Outcome.pass else Outcome.fail;
  code = "";
  evidence = none;
}

normalised : CheckAnswer → CheckResult
unfolding result_if
normalised (two_valued b) = result_if b
normalised (three_valued r) = r

-- what one answered check makes of the loop: an end, or the hold to remember
pub data Turn : Type 0 where
  ends : GateResult → Turn
  goes_on : Option (String × CheckResult) → Turn

module _ {W : Type 0} (py : GatePy) (ctx : GateContext W) where
  -- `_run_named_check`
  unfoldable pub run_named_check : String → W → Call CheckResult × W
  unfolding normalised is_true result_if
  run_named_check name w = elim (ctx.preconditions name) [
    | some check ↦
        let (answer, w') = check ctx.request w in
        (elim answer [ raised ↦ raised | ok a ↦ ok (normalised a) ], w')
    | none ↦ (ok (result_if (is_true (get ctx.request.resolved.payload name))), w)
  ]

  unfoldable pub check_failed : String → String → CheckResult → GateResult
  check_failed gate name r = record (failed gate (name +s " not satisfied")) {
    code = r.code;
    source = name;
    retry_class = if str_eq r.code "" then none else some (reason_class ctx.registry name r.code);
  }

  unfoldable pub first_of :
      Option (String × CheckResult) → String × CheckResult → Option (String × CheckResult)
  first_of none h = some h
  first_of (some g) h = some g

  unfoldable pub check_held : String → String → CheckResult → Option (String × CheckResult) → Turn
  unfolding first_of
  check_held gate name r first_hold =
      if str_eq r.code ""
      then ends (record (failed gate ("fail-closed: " +s name +s " held without a reason code")) {
        source = name;
      })
      else if not (check_hold_capable ctx.registry name)
      then ends
          (record (failed gate
            ("fail-closed: " +s name +s " held without declared hold capability")) {
              source = name;
            })
      else goes_on (first_of first_hold (name, r))

  unfoldable pub turn_by :
      String → String → CheckResult → Option (String × CheckResult) → Outcome → Turn
  unfolding check_failed check_held
  turn_by gate name r first_hold Outcome.fail = ends (check_failed gate name r)
  turn_by gate name r first_hold Outcome.hold = check_held gate name r first_hold
  turn_by gate name r first_hold Outcome.pass = goes_on first_hold

  unfoldable pub turn : String → String → Option (String × CheckResult) → Call CheckResult → Turn
  unfolding turn_by
  turn gate name first_hold raised =
      if is_closed ctx.request.failure_mode
      then ends (record (failed gate ("fail-closed: " +s name +s " errored")) { source = name })
      else goes_on first_hold
  turn gate name first_hold (ok r) = turn_by gate name r first_hold r.outcome

  unfoldable pub after_checks : String → Option (String × CheckResult) → GateResult
  after_checks gate none = passed gate ""
  after_checks gate (some (name, r)) = record (held gate (name +s ": " +s r.code)) {
    code = r.code;
    source = name;
    evidence = r.evidence;
    retry_class = some (reason_class ctx.registry name r.code);
  }

  unfoldable pub after_turn :
      Turn → W → (Option (String × CheckResult) → W → GateResult × W) → GateResult × W
  after_turn (ends r) w k = (r, w)
  after_turn (goes_on h) w k = k h w

  -- `_run_checks`
  unfoldable pub run_checks :
      String → List Value → Option (String × CheckResult) → W → GateResult × W
  unfolding after_checks
  run_checks gate [] first_hold w = (after_checks gate first_hold, w)
  run_checks gate (v ∷ vs) first_hold w =
      let name = py.ops.text_of (plain v) in
      let (answer, w') = run_named_check name w in
      after_turn (turn gate name first_hold answer) w' (run_checks gate vs)
