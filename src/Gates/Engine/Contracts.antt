-- ===== src/Gates/Engine/Contracts.antt =====
-- stonefold_gates/engine.py: what a holding gate demands for its release. The record keeps texts and
-- natural numbers: an approver or an `onTimeout` that is no text is kept as its str(), and a negative
-- quorum as 0, which as many approvers reach.
use stonefold.Prelude.{
  ℕ, ℤ, pos, negsuc, String, Bool, true, false, Option, none, some, List, [], ◌∷◌, if◌then◌else◌,
  str_eq, ◌+s◌, ◌||◌, not,
}
use stonefold.Values.{Value, truthy, to_list}
use stonefold.Models.Records.{GateResult, ApprovalSpec, ReleaseContract}
use stonefold.Condition.Evaluate.{Eval, value, raise, ◌>>=◌, plain}
use stonefold.Gates.{GatePy, cfg_get, window_seconds}
use stonefold.Gates.Sets.{texts_of}
use stonefold.Gates.Counting.{int_value}

names_of : GatePy → Option Value → List String
unfolding texts_of
names_of py none = []
names_of py (some Value.null) = []
names_of py (some (Value.list vs)) = texts_of py (to_list vs)
names_of py (some v) = py.ops.text_of (plain v) ∷ []

-- `_approvers`
unfoldable pub approvers_of : GatePy → Value → List String
unfolding names_of
approvers_of py cfg = names_of py (cfg_get cfg "approvers")

if_read : Eval ℕ → Option ℕ
if_read (value t) = some t
if_read (raise e) = none

timeout_of : GatePy → Option Value → Option ℕ
unfolding if_read
timeout_of py none = none
timeout_of py (some Value.null) = none
timeout_of py (some v) = if_read (window_seconds py (py.ops.text_of (plain v)))

-- `_timeout_seconds`
unfoldable pub timeout_seconds : GatePy → Value → Option ℕ
unfolding timeout_of
timeout_seconds py cfg = timeout_of py (cfg_get cfg "timeout")

natural : ℤ → ℕ
natural (pos n) = n
natural (negsuc n) = 0

quorum_of : GatePy → Option Value → Eval ℕ
unfolding natural
quorum_of py none = value 1
quorum_of py (some v) = int_value py v >>= (λ n. value (natural n))

on_timeout_of : GatePy → Option Value → String
on_timeout_of py none = "deny"
on_timeout_of py (some v) = py.ops.text_of (plain v)

spec_with : GatePy → Value → Bool → ℕ → ApprovalSpec
unfolding on_timeout_of
spec_with py cfg dual quorum = record {
  quorum = quorum;
  dual_auth = dual;
  distinct_from_actor = dual;
  approvers = approvers_of py cfg;
  timeout = timeout_seconds py cfg;
  on_timeout = on_timeout_of py (cfg_get cfg "onTimeout");
}

-- `_approval_spec`
unfoldable pub approval_spec : GatePy → String → Value → Eval ApprovalSpec
unfolding spec_with quorum_of
approval_spec py gate cfg =
    if str_eq gate "dualAuthorization"
    then value (spec_with py cfg true 2)
    else quorum_of py (cfg_get cfg "quorum") >>= (λ quorum. value (spec_with py cfg false quorum))

unfoldable pub is_approval : String → Bool
is_approval gate = str_eq gate "requireApproval" || str_eq gate "dualAuthorization"

unfoldable pub by_approval : String → ApprovalSpec → ReleaseContract
by_approval gate spec = record {
  gate = gate;
  cause = gate;
  quorum = spec.quorum;
  dual_auth = spec.dual_auth;
  distinct_from_actor = spec.distinct_from_actor;
  approvers = spec.approvers;
  timeout = spec.timeout;
  on_timeout = spec.on_timeout;
  reason_code = "";
  evidence = none;
  satisfied_by = [];
}

-- a contract with the defaults of `ReleaseContract`
unfoldable pub by_resolvers : String → GateResult → List String → ReleaseContract
by_resolvers gate r approvers = record {
  gate = gate;
  cause = if str_eq r.source "" then gate else gate +s ":" +s r.source;
  quorum = 1;
  dual_auth = false;
  distinct_from_actor = false;
  approvers = approvers;
  timeout = none;
  on_timeout = "deny";
  reason_code = r.code;
  evidence = r.evidence;
  satisfied_by = [];
}

declared_resolvers : GatePy → Option Value → Option (List String)
declared_resolvers py none = none
declared_resolvers py (some v) = if truthy v then some (py.ops.text_of (plain v) ∷ []) else none

default_resolvers : Option String → Option (List String) → Option (List String)
default_resolvers role (some rs) = some rs
default_resolvers none none = none
default_resolvers (some role) none = some (role ∷ [])

-- A hold of a check that nobody may resolve has no contract.
resolvers_or : GatePy → String → Value → GateResult → Option (List String) → Option (List String)
resolvers_or py gate cfg r (some rs) = some rs
resolvers_or py gate cfg r none =
    if str_eq gate "precondition" || not (str_eq r.code "")
    then none
    else some (approvers_of py cfg)

unfoldable pub contract_with : String → GateResult → Option (List String) → Option ReleaseContract
unfolding by_resolvers
contract_with gate r none = none
contract_with gate r (some rs) = some (by_resolvers gate r rs)

-- `_release_contract`, with the deployment's default resolver role
unfoldable pub release_contract :
    GatePy → Option String → String → Value → GateResult → Eval (Option ReleaseContract)
unfolding by_approval contract_with resolvers_or default_resolvers declared_resolvers
release_contract py role gate cfg r =
    if is_approval gate
    then approval_spec py gate cfg >>= (λ spec. value (some (by_approval gate spec)))
    else value (
        contract_with gate r (
          resolvers_or py gate cfg r
            (default_resolvers role (declared_resolvers py (cfg_get cfg "resolvers")))))
