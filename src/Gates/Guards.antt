-- ===== src/Gates/Guards.antt =====
-- stonefold_gates/gates.py: precondition, emissionControl and the guard of transitions.
use stonefold.Prelude.{
  String, Bool, true, false, Option, none, some, List, [], ◌∷◌, if◌then◌else◌, str_eq, ◌+s◌,
}
use stonefold.Values.{Value, Fields, empty, field, get, truthy, to_list}
use stonefold.Models.Enums.{Outcome, RetryClass, holds}
use stonefold.Models.Records.{GateResult}
use stonefold.Condition.Evaluate.{Eval, value, raise, foreign, ◌>>=◌}
use stonefold.Condition.Evaluate.Run.{py_eq}
use stonefold.Gates.{GatePy, CheckResult, GateContext, Answer, passed, failed, held, cfg_get}
use stonefold.Gates.Reads.{ReadDecl, parse_reads, check_reads, text_or}
use stonefold.Gates.Checks.{is_true, run_checks}

chars : String → List Value
chars String.[] = []
chars (String.◌∷◌ c s) = Value.str (String.◌∷◌ c String.[]) ∷ chars s

keys : Fields → List Value
keys empty = []
keys (field k v d) = Value.str k ∷ keys d

-- list(v), which is a TypeError of a value that is no collection
unfoldable pub listed : Value → Eval (List Value)
unfolding chars keys
listed (Value.list vs) = value (to_list vs)
listed (Value.str s) = value (chars s)
listed (Value.dict d) = value (keys d)
listed v = raise foreign

is_set : Option Value → Bool
is_set none = false
is_set (some v) = truthy v

unfoldable pub any_equal : GatePy → Value → List Value → Bool
any_equal py v [] = false
any_equal py v (w ∷ ws) = let rest = any_equal py v ws in if py_eq py.ops v w then true else rest

unfoldable pub is_null : Value → Bool
is_null Value.null = true
is_null v = false

unfoldable pub from_states : GatePy → List Value → Option Value → GateResult
unfolding is_null
from_states py allowed none = failed "precondition" "fail-closed: target currentState unknown"
from_states py allowed (some current) =
    if is_null current
    then failed "precondition" "fail-closed: target currentState unknown"
    else if any_equal py current allowed
    then passed "precondition" ""
    else failed "precondition" "state not in from-states"

module _ {W : Type 0} (py : GatePy) (ctx : GateContext W) where
  -- `check_from_states`
  unfoldable pub check_from_states : Value → Eval GateResult
  unfolding from_states
  check_from_states states =
      listed states
      >>= (λ allowed. value (from_states py allowed (get ctx.request.env.resource "currentState")))

  checks_of : String → Eval (List Value) → W → Answer W
  checks_of gate (raise e) w = (raise e, w)
  checks_of gate (value names) w =
      let (r, w') = run_checks py ctx gate names none w in (value r, w')

  untrusted : CheckResult → GateResult
  untrusted r =
      let base =
        if holds r.outcome
        then held "precondition" "source not trustworthy"
        else failed "precondition" "source not trustworthy" in
      record base { code = r.code; evidence = r.evidence; retry_class = some RetryClass.escalate }

  optional_list : Option Value → Eval (List Value)
  optional_list none = value []
  optional_list (some v) = listed v

  guarded_checks : Fields → Eval (List ReadDecl) → W → Answer W
  unfolding checks_of untrusted optional_list
  guarded_checks d (raise e) w = (raise e, w)
  guarded_checks d (value reads) w =
      let (verdict, w') = check_reads reads (text_or py d "onUnavailable" "deny") ctx w in
      elim verdict [
        | some r ↦ (value (untrusted r), w')
        | none ↦ checks_of "precondition" (optional_list (get d "checks")) w'
      ]

  from_or_checks : Fields → Option Value → W → Answer W
  unfolding guarded_checks
  from_or_checks d (some states) w = (check_from_states states, w)
  from_or_checks d none w = guarded_checks d (parse_reads py (get d "reads")) w

  unfoldable pub precondition : Value → W → Answer W
  unfolding from_or_checks checks_of
  precondition (Value.dict d) w = from_or_checks d (get d "from") w
  precondition (Value.list vs) w = checks_of "precondition" (value (to_list vs)) w
  precondition v w = checks_of "precondition" (value (v ∷ [])) w

  -- a or b or []
  or_list : Option Value → Eval (List Value) → Eval (List Value)
  or_list none rest = rest
  or_list (some v) rest = if truthy v then listed v else rest

  deconflicted : GateResult → GateResult
  deconflicted r = record (failed "emissionControl" ("deconfliction failed: " +s r.source)) {
    code = r.code;
    source = r.source;
  }

  authorization : Value → GateResult
  unfolding is_true is_set
  authorization cfg =
      if is_set (cfg_get cfg "holdForAuthorization")
      then if is_true (get ctx.request.resolved.payload "emissionAuthorized")
        then passed "emissionControl" ""
        else held "emissionControl" "awaiting emission authorization"
      else passed "emissionControl" ""

  after_emission : Value → GateResult → GateResult
  unfolding deconflicted authorization
  after_emission cfg r = elim r.outcome [
    | Outcome.pass ↦ authorization cfg
    | Outcome.hold ↦ r
    | Outcome.fail ↦ if str_eq r.source "" then r else deconflicted r
  ]

  unfoldable pub emission_control : Value → W → Answer W
  unfolding checks_of or_list after_emission
  emission_control cfg w =
      let names =
        or_list (cfg_get cfg "checks") (or_list (cfg_get cfg "precondition") (value [])) in
      let (r, w') = checks_of "emissionControl" names w in
      (r >>= (λ g. value (after_emission cfg g)), w')
