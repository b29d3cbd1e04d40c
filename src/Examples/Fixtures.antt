-- ===== src/Examples/Fixtures.antt =====
-- A payment that needs two releases, its payer and the rows that it stages.
use stonefold.Prelude.{pos, true, false, String, none, some, [], ◌∷◌}
use stonefold.Values.{empty, field, Value}
use stonefold.Models.Enums.{
  Kind, EnforcementMode, Reversibility, Emission, OperativeForce, Explainability,
}
use stonefold.Models.Records.{Attributes, ResolvedAction, Actor, ReleaseContract, Session}
use stonefold.Outbox.{PendingState, PendingAction}

abbrev pub money_attrs : Attributes
money_attrs = record {
  reversibility = Reversibility.irreversible;
  emission = Emission.emits;
  operative_force = OperativeForce.high;
  result_sensitivity = "public";
  explainability = Explainability.none;
}

abbrev pub payment : ResolvedAction
payment = record {
  kind = Kind.effect;
  resource = "Payment";
  action = some "send";
  payload = field "amount" (Value.int (pos 900)) empty;
  attrs = money_attrs;
  connector = "bank";
  connector_digest = none;
  from_states = [];
  items = none;
  compensation = none;
}

abbrev pub payer : Actor
payer = record { id = "ada"; roles = "clerk" ∷ []; claims = empty }

abbrev pub session : Session
session = record { id = "s1"; correlation_id = some "c1" }

abbrev pub approval_contract : ReleaseContract
approval_contract = record {
  gate = "requireApproval";
  cause = "approval";
  quorum = 1;
  dual_auth = true;
  distinct_from_actor = false;
  approvers = [];
  timeout = none;
  on_timeout = "deny";
  reason_code = "";
  evidence = none;
  satisfied_by = [];
}

abbrev pub match_contract : ReleaseContract
match_contract = record approval_contract {
  gate = "requireMatch";
  cause = "hold";
  dual_auth = false;
}

abbrev pub held_row : PendingAction
held_row = record {
  id = "t1";
  idempotency_key = "k1";
  state = PendingState.pending_approval;
  agent = "teller";
  resolved = payment;
  actor = payer;
  session_id = "s1";
  correlation_id = some "c1";
  gates = [];
  approval = none;
  approvals = [];
  attempts = 1;
  releases = approval_contract ∷ match_contract ∷ [];
  compensation = none;
  obligation = none;
  enforcement = EnforcementMode.enforced;
  reason = none;
  expires_at = none;
  created_at = 5;
  updated_at = 5;
}

abbrev pub ready_row : String → PendingAction
ready_row ticket = record held_row { id = ticket; state = PendingState.pending }
