-- ===== src/Gates/Engine/Context.antt =====
-- stonefold_gates/engine.py: what conditions see of a request, and the check of a staged row at its
-- dispatch.
use stonefold.Prelude.{ℕ, String, Option, none, some, List, [], ◌∷◌, if◌then◌else◌, str_eq, is_some}
use stonefold.Values.{Value, Fields, empty, get, put}
use stonefold.Models.Enums.{FailureMode}
use stonefold.Models.Records.{GateResult, ResolvedAction, Actor, Session, RequestEnv}
use stonefold.Kill.{action_namespace, actor_namespace}
use stonefold.Outbox.{PendingAction}
use stonefold.Compiler.Keys.{GateSets, gates_for}
use stonefold.Condition.Evaluate.{Eval, value, raise, foreign, Thing, plain, EvalContext, PyOps}
use stonefold.Condition.Evaluate.Run.{make_window}
use stonefold.Gates.{GatePy, Request, GateContext}
use stonefold.Gates.Engine.Revalidate.{revalidate_volatile}

instant_or_null : Option ℕ → Value
instant_or_null none = Value.null
instant_or_null (some t) = Value.instant t

with_now : Option ℕ → Fields → Fields
with_now none d = d
with_now (some t) d = if is_some (get d "now") then d else put d "now" (Value.instant t)

-- the namespaces of the action and of the actor are those that a kill target shows
unfoldable pub namespace_of : ResolvedAction → Actor → RequestEnv → String → Option Fields
unfolding action_namespace actor_namespace with_now
namespace_of a actor env name =
    if str_eq name "action"
    then some (action_namespace a)
    else if str_eq name "data"
    then some a.payload
    else if str_eq name "resource"
    then some env.resource
    else if str_eq name "actor"
    then some (actor_namespace actor)
    else if str_eq name "context"
    then some (with_now env.now env.context)
    else none

call_now : Option ℕ → List Thing → Eval Thing
unfolding instant_or_null
call_now now [] = value (plain (instant_or_null now))
call_now now args = raise foreign

call_window : PyOps → List Thing → Eval Thing
call_window py (x ∷ []) = make_window py x
call_window py args = raise foreign

unfoldable pub function_of : PyOps → RequestEnv → String → Option (List Thing → Eval Thing)
unfolding call_now call_window
function_of py env name =
    if str_eq name "now"
    then some (call_now env.now)
    else if str_eq name "window"
    then some (call_window py)
    else none

-- `build_eval_context`
unfoldable pub build_eval_context : PyOps → ResolvedAction → Actor → RequestEnv → EvalContext
unfolding namespace_of function_of
build_eval_context py a actor env = record {
  namespaces = namespace_of a actor env;
  functions = function_of py env;
}

-- the request's part of `_context`, with the agent and the failure mode of the policy
unfoldable pub request_of :
    PyOps → String → FailureMode → ResolvedAction → Actor → Session → RequestEnv → Request
request_of py agent mode a actor session env = record {
  resolved = a;
  actor = actor;
  session = session;
  env = env;
  eval_ctx = build_eval_context py a actor env;
  agent = agent;
  failure_mode = mode;
}

dispatch_env : ℕ → RequestEnv
dispatch_env now = record {
  resource = empty;
  context = empty;
  now = some now;
  sink = none;
  cost = none;
}

-- `make_dispatch_revalidator`, where `wired` adds what the deployment gives to a request
unfoldable pub dispatch_revalidator :
    {W : Type 0}
    → GatePy
    → (Request → GateContext W)
    → String
    → FailureMode
    → GateSets
    → PendingAction
    → ℕ
    → W
    → Eval (Option GateResult) × W
unfolding dispatch_env
dispatch_revalidator py wired agent mode sets row now w =
    let session : Session = record { id = row.session_id; correlation_id = row.correlation_id } in
    let request : Request =
      request_of py.ops agent mode row.resolved row.actor session (dispatch_env now) in
    revalidate_volatile py (wired request) row.obligation (gates_for sets row.resolved) w
