-- ===== src/Gates.antt =====
-- stonefold_gates/base.py: what a gate reads, and the results it builds. Of a result's reason, which
-- is text for people, the fixed part is kept: the text of an exception and of a value is left out.
pub mod Reads
pub mod Checks
pub mod Guards
pub mod Single
pub mod Sets
pub mod Counting
pub mod Match
pub mod Engine
use Prim.Native.Char.{Char}
use stonefold.Prelude.{
  ℕ, ℤ, ◌*◌, String, Bool, true, false, Option, none, some, List, [], ◌∷◌, if◌then◌else◌, str_eq,
  split, contains, nat_eq, ◌&&◌,
}
use stonefold.Values.{Value, Fields, get, truthy}
use stonefold.Models.Enums.{Outcome, RetryClass, FailureMode}
use stonefold.Models.Records.{GateResult, ResolvedAction, Actor, Session, RequestEnv, Capability}
use stonefold.Failure.{Call}
use stonefold.Obligation.{ReserveOutcome}
use stonefold.Condition.Tokens.{PyChars, span, is}
use stonefold.Condition.Evaluate.{
  Eval, value, raise, missing, runtime, foreign, ◌>>=◌, Thing, plain, PyOps, EvalContext,
  lookup_path, partition, bool_int,
}

-- Python's operations that the gates use besides those of conditions: decimal digits, the number
-- that they read as, an integer compared with a float, the day of an instant's week, int() of a
-- float, the characters of conditions, and the floats 1.0, 0.0, abs(a - b) and a / 100.0 * abs(b).
pub record GatePy : Type 0 where
  pub ops : PyOps
  pub is_decimal : Char → Bool
  pub decimal : String → ℕ
  pub count_exceeds : ℕ → ℕ → Bool
  pub one : ℕ
  pub weekday_of : ℕ → String
  pub truncate : ℕ → Option ℤ
  pub chars : PyChars
  pub zero : ℕ
  pub distance : ℕ → ℕ → ℕ
  pub percent_of : ℕ → ℕ → ℕ

-- `CheckResult`
pub record CheckResult : Type 0 where
  pub outcome : Outcome
  pub code : String
  pub evidence : Option Fields

pub data CheckAnswer : Type 0 where
  two_valued : Bool → CheckAnswer
  three_valued : CheckResult → CheckAnswer

-- obligation.py
pub record Obligation : Type 0 where
  pub ref : String
  pub fields : Fields

-- registry.py: what the gates ask of the registry
pub record CheckDecl : Type 0 where
  pub hold_capable : Bool
  pub reason_codes : List (String × RetryClass)

pub record GateRegistry : Type 0 where
  pub sets : List (String × List String)
  pub classifications : List String
  pub checks : List (String × CheckDecl)
  pub obligation_registries : List (String × Capability)

-- the part of `GateContext` that is the request's own
pub record Request : Type 0 where
  pub resolved : ResolvedAction
  pub actor : Actor
  pub session : Session
  pub env : RequestEnv
  pub eval_ctx : EvalContext
  pub agent : String
  pub failure_mode : FailureMode

-- The other part, which the deployment wires: checks, content hooks, sources and counters act on one
-- world `W`, and any of them may raise.
pub record GateContext (W : Type 0) : Type 0 where
  pub request : Request
  pub registry : GateRegistry
  pub preconditions : String → Option (Request → W → Call CheckAnswer × W)
  pub hooks : String → Option (Fields → W → Call Bool × W)
  pub obligations : String → Option (List (String × Thing) → W → Call (List Obligation) × W)
  pub reservations : String → Option (String → String → W → Call ReserveOutcome × W)
  pub sources : String → Option (W → Call (Option ℕ) × W)
  pub hit : String → ℕ → ℕ → W → Call ℕ × W
  pub add : String → ℕ → ℕ → ℕ → W → Call ℕ × W

-- An exception that the gate does not catch ends the evaluation.
abbrev pub Answer : Type 0 → Type 0
Answer W = Eval GateResult × W

abbrev result_of : Outcome → String → String → GateResult
result_of outcome gate reason = record {
  gate = gate;
  outcome = outcome;
  reason = reason;
  code = "";
  source = "";
  evidence = none;
  retry_class = none;
  fields = [];
}

abbrev pub passed : String → String → GateResult
passed = result_of Outcome.pass

abbrev pub failed : String → String → GateResult
failed = result_of Outcome.fail

abbrev pub held : String → String → GateResult
held = result_of Outcome.hold

-- cfg.get(key) of a configuration that is a dict, and None of any other
unfoldable pub cfg_get : Value → String → Option Value
cfg_get (Value.dict d) key = get d key
cfg_get v key = none

abbrev pub is_dict : Value → Bool
is_dict (Value.dict d) = true
is_dict v = false

-- (str(field),) if field else ()
unfoldable pub shown_field : GatePy → Option Value → List String
shown_field py none = []
shown_field py (some v) = if truthy v then py.ops.text_of (plain v) ∷ [] else []

abbrev dot : Char
dot = "."

lookup_parts : EvalContext → List String → Eval Value
lookup_parts ctx [] = raise missing
lookup_parts ctx (p ∷ ps) = lookup_path ctx p ps

-- `resolve_field`
unfoldable pub resolve_field : EvalContext → Option Value → Eval Value
unfolding lookup_parts
resolve_field ctx (some (Value.str s)) =
    if str_eq s "" then raise missing else lookup_parts ctx (split s dot)
resolve_field ctx _ = raise missing

or_raise : Option ℕ → Eval ℕ
or_raise none = raise foreign
or_raise (some x) = value x

or_runtime : Option ℕ → Eval ℕ
or_runtime none = raise runtime
or_runtime (some x) = value x

-- `to_number`
unfoldable pub to_number : GatePy → Value → Eval ℕ
unfolding or_raise or_runtime
to_number py (Value.int n) = or_raise (py.ops.float_of_int n)
to_number py (Value.float x) = value x
to_number py (Value.str s) = or_runtime (py.ops.float_of_text s)
to_number py _ = raise runtime

-- float(v)
unfoldable pub float_of : GatePy → Value → Eval ℕ
unfolding or_raise
float_of py (Value.int n) = or_raise (py.ops.float_of_int n)
float_of py (Value.bool b) = or_raise (py.ops.float_of_int (bool_int b))
float_of py (Value.float x) = value x
float_of py (Value.str s) = or_raise (py.ops.float_of_text s)
float_of py _ = raise foreign

-- `now_ts`
unfoldable pub now_of : RequestEnv → Eval ℕ
now_of env = elim env.now [ none ↦ raise missing | some t ↦ value t ]

-- microseconds
abbrev pub second : ℕ
second = 1_000_000

unfoldable pub unit_of : String → Option ℕ
unit_of u =
    if str_eq u "s"
    then some 1
    else if str_eq u "m"
    then some 60
    else if str_eq u "h"
    then some 3600
    else if str_eq u "d"
    then some 86400
    else none

unfoldable pub word_of : String → Option ℕ
word_of w =
    if str_eq w "session"
    then some 315_360_000
    else if str_eq w "second"
    then some 1
    else if str_eq w "minute"
    then some 60
    else if str_eq w "hour"
    then some 3600
    else if str_eq w "day"
    then some 86400
    else if str_eq w "week"
    then some 604800
    else none

duration : GatePy → String × String → Eval ℕ
duration py (ds, u) =
    if str_eq ds ""
    then raise runtime
    else elim (unit_of u) [ none ↦ raise runtime | some s ↦ value (py.decimal ds * s * second) ]

-- `window_seconds`, of a text
unfoldable pub window_seconds : GatePy → String → Eval ℕ
unfolding duration
window_seconds py token =
    let text = py.ops.strip token in
    elim (word_of text) [
      | some s ↦ value (s * second)
      | none ↦ duration py (span py.is_decimal text)
    ]

rate_parts : GatePy → String × Bool × String → Eval (ℕ × ℕ)
rate_parts py (n, sep, w) =
    if sep
    then or_runtime (py.ops.float_of_text (py.ops.strip n))
      >>= (λ limit. window_seconds py w >>= (λ window. value (limit, window)))
    else raise runtime

-- `parse_rate`, of a text
unfoldable pub parse_rate : GatePy → String → Eval (ℕ × ℕ)
unfolding rate_parts or_runtime
parse_rate py spec = rate_parts py (partition "/" (py.ops.strip spec))
