-- ===== src/Audit.antt =====
-- stonefold_core/audit.py: the assembly of an audit record.
use stonefold.Prelude.{
  String, Option, none, some, List, [], ◌∷◌, is_some, if◌then◌else◌, ◌&&◌, str_eq, Bool, false,
  or_else,
}
use stonefold.Values.{Value, Fields, get, truthy, Items}
use stonefold.Models.Enums.{EnforcementMode, Coverage, kind_value}
use stonefold.Models.Records.{
  RawCall, ResolvedAction, Actor, Session, GateResult, EvalResult, AuditRecord, ApprovalAudit,
  Consumption, ObligationRefs, ScopeWouldRemove, Advice,
}

or_null : Option Value → Value
or_null none = Value.null
or_null (some v) = v

-- list(evidence.get("refs") or []): a list is passed on, anything falsy becomes the empty list
or_empty : Option Value → Value
or_empty none = Value.list Items.nil
or_empty (some v) = if truthy v then v else Value.list Items.nil

refs_of : Fields → ObligationRefs
unfolding or_null or_empty
refs_of ev = record {
  registry = or_null (get ev "registry");
  refs = or_empty (get ev "refs");
  candidates = or_null (get ev "candidates");
}

names_registry : Option Fields → Bool
names_registry none = false
names_registry (some ev) = is_some (get ev "registry")

unfoldable pub obligation_refs : List GateResult → Option ObligationRefs
unfolding refs_of names_registry
obligation_refs [] = none
obligation_refs (g ∷ gs) =
    let rest = obligation_refs gs in
    if str_eq g.gate "requireMatch" && names_registry g.evidence
    then some (refs_of (or_else g.evidence Fields.empty))
    else rest

abbrev resource_of : Option ResolvedAction → RawCall → String
resource_of none call = call.resource
resource_of (some a) call = a.resource

abbrev action_of : Option ResolvedAction → RawCall → Option String
action_of none call = call.action
action_of (some a) call = a.action

abbrev kind_of : Option ResolvedAction → Option String
kind_of none = none
kind_of (some a) = some (kind_value a.kind)

-- session.correlation_id or session.id
correlation : Session → String
correlation session = elim session.correlation_id [
  | none ↦ session.id
  | some c ↦ if str_eq c "" then session.id else c
]

-- `build_record` at its keyword arguments that the pipeline and the worker give. The arguments
-- `batch_advice` and `record_rule` are given by neither, so their defaults are written in.
unfoldable pub build_record :
    String
    → Actor
    → Session
    → RawCall
    → Option ResolvedAction
    → EvalResult
    → String
    → Option ApprovalAudit
    → List String
    → Option Consumption
    → EnforcementMode
    → Option Advice
    → Coverage
    → Option ScopeWouldRemove
    → AuditRecord
unfolding correlation
build_record agent actor session call resolved result outcome approval result_refs consumption
      enforcement advised coverage scope_would_remove =
    record {
      agent = agent;
      actor = actor.id;
      kind = kind_of resolved;
      resource = some (resource_of resolved call);
      action = action_of resolved call;
      parameters = call.payload;
      scope_applied = result.scope_applied;
      gates = result.gates;
      decision = result.decision;
      rule = some result.rule;
      reason_code = result.reason_code;
      retry_class = result.retry_class;
      approval = approval;
      outcome = outcome;
      result_refs = result_refs;
      obligation_refs = obligation_refs result.gates;
      consumption = consumption;
      correlation_id = some (correlation session);
      enforcement = enforcement;
      advised = advised;
      coverage = coverage;
      batch_advice = none;
      scope_would_remove = scope_would_remove;
      item_advice = none;
    }
