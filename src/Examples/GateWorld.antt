-- ===== src/Examples/GateWorld.antt =====
-- A payment, a transition, and gates with checks that pass, hold and crash.
use stonefold.Prelude.{
  ℕ, ◌+◌, ℤ, pos, String, true, false, Option, none, some, [], ◌∷◌, leb, nat_eq, if◌then◌else◌,
  str_eq,
}
use stonefold.Values.{Value, Fields, empty, field}
use stonefold.Models.Enums.{Outcome, RetryClass, Kind, FailureMode}
use stonefold.Models.Records.{GateResult, Capability}
use stonefold.Failure.{Call, ok, raised}
use stonefold.Condition.Evaluate.{Thing, plain, PyOps}
use stonefold.Gates.{
  GatePy, CheckResult, CheckAnswer, two_valued, three_valued, GateRegistry, Request, GateContext,
  Obligation,
}
use stonefold.Examples.Fixtures.{payment, payer, session}

unfoldable pub text_of_value : Value → String
text_of_value (Value.str s) = s
text_of_value v = ""

unfoldable pub shown : Thing → String
unfolding text_of_value
shown (plain v) = text_of_value v
shown t = ""

unfoldable pub natural_part : ℤ → Option ℕ
natural_part (pos n) = some n
natural_part n = none

abbrev pub small_ops : PyOps
small_ops = record {
  float_of_int = natural_part;
  float_of_text = λ s. none;
  float_eq = nat_eq;
  float_lt = λ a b. leb (a + 1) b;
  float_le = leb;
  int_eq_float = λ n x. false;
  text_of = shown;
  search = λ p s. none;
  int_of_text = λ s. none;
  strip = λ s. s;
  minute_of = λ t. t;
}

abbrev pub gate_py : GatePy
gate_py = record {
  ops = small_ops;
  is_decimal = λ c. false;
  decimal = λ s. 0;
  count_exceeds = λ a b. leb (b + 1) a;
  one = 1;
  weekday_of = λ t. "Mon";
  truncate = λ x. some (pos x);
  chars = record {
    is_space = λ c. false;
    is_digit = λ c. false;
    is_alpha = λ c. true;
    is_alnum = λ c. true;
    int_of = λ s. none;
    float_of = λ s. none;
  };
  zero = 0;
  distance = λ a b. 3;
  percent_of = λ p x. 0;
}

abbrev pub review : CheckResult
review = record { outcome = Outcome.hold; code = "REVIEW"; evidence = none }

-- Each check that is run is counted by the world.
abbrev pub checks : String → Option (Request → ℕ → Call CheckAnswer × ℕ)
checks name =
    if str_eq name "sane"
    then some (λ request n. (ok (two_valued true), n + 1))
    else if str_eq name "review"
    then some (λ request n. (ok (three_valued review), n + 1))
    else none

abbrev pub registry : GateRegistry
registry = record {
  sets = [];
  classifications = [];
  checks =
      (
        "review",
        record { hold_capable = true; reason_codes = ("REVIEW", RetryClass.escalate) ∷ [] },
      )
      ∷ [];
  obligation_registries = ("orders", Capability.window) ∷ [];
}

abbrev pub order : Obligation
order = record { ref = "po-1"; fields = field "amount" (Value.int (pos 903)) empty }

abbrev pub amounts : String → Option Fields
amounts ns = if str_eq ns "data" then some payment.payload else none

abbrev pub request : Request
request = record {
  resolved = payment;
  actor = payer;
  session = session;
  env = record {
    resource = field "currentState" (Value.str "open") empty;
    context = empty;
    now = none;
    sink = none;
    cost = none;
  };
  eval_ctx = record { namespaces = amounts; functions = λ name. none };
  agent = "clerk";
  failure_mode = FailureMode.closed;
}

abbrev pub context : GateContext ℕ
context = record {
  request = request;
  registry = registry;
  preconditions = checks;
  hooks = λ name. none;
  obligations =
      λ name. if str_eq name "orders" then some (λ sel n. (ok (order ∷ []), n + 1)) else none;
  reservations = λ name. none;
  sources = λ name. none;
  hit = λ key now window n. (raised, n);
  add = λ key amount now window n. (raised, n);
}

abbrev pub ticket : GateContext ℕ
ticket = record context {
  request = record request {
    resolved = record payment { kind = Kind.transition; from_states = "open" ∷ [] };
  };
}

abbrev pub pass_result : String → GateResult
pass_result gate = record {
  gate = gate;
  outcome = Outcome.pass;
  reason = "";
  code = "";
  source = "";
  evidence = none;
  retry_class = none;
  fields = [];
}
