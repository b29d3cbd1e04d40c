-- ===== src/Kill.antt =====
-- stonefold_core/kill.py: kill scopes, orders, targets and the matcher.
pub mod Store
use Prim.Native.Nat.{Ordering}
use Prim.Native.String.{compare}
use stonefold.Prelude.{
  ℕ, String, Bool, true, false, Option, none, some, List, [], ◌∷◌, not, ◌&&◌, if◌then◌else◌, str_eq,
  is_some,
}
use stonefold.Values.{Value, Items, Fields, empty, field, put}
use stonefold.Models.Enums.{
  Kind, KillScopeKind, kind_eq, kind_value, reversibility_value, emission_value, force_value,
  explainability_value,
}
use stonefold.Models.Records.{ResolvedAction, Actor, Session}
use stonefold.Failure.{Call, ok, raised}

pub record KillScope : Type 0 where
  pub kind : KillScopeKind
  pub agent : Option String
  pub session_id : Option String
  pub action_kind : Option Kind
  pub resource : Option String
  pub action : Option String

-- `None` on a call with no facet, which raises ValueError
unfoldable pub for_action_class : Option Kind → Option String → Option String → Option KillScope
for_action_class none none none = none
for_action_class kind resource action = some (record {
  kind = KillScopeKind.action_class;
  agent = none;
  session_id = none;
  action_kind = kind;
  resource = resource;
  action = action;
})

pub record KillOrder : Type 0 where
  pub id : String
  pub scope : KillScope
  pub predicate : Option String
  pub issued_by : String
  pub issued_at : ℕ
  pub lifted_at : Option ℕ
  pub epoch : ℕ

abbrev pub active : KillOrder → Bool
active order = not (is_some order.lifted_at)

pub record KillTarget : Type 0 where
  pub agent : String
  pub session_id : String
  pub kind : Option Kind
  pub resource : Option String
  pub action : Option String
  pub action_ns : Fields
  pub actor_ns : Fields
  pub payload : Fields

-- sorted(xs)
insert_sorted : String → List String → List String
insert_sorted s [] = s ∷ []
insert_sorted s (t ∷ ts) =
    let later = insert_sorted s ts in
    elim (compare s t) [ Ordering.gt ↦ t ∷ later | _ ↦ s ∷ t ∷ ts ]

unfoldable pub sorted : List String → List String
unfolding insert_sorted
sorted [] = []
sorted (s ∷ ss) = insert_sorted s (sorted ss)

texts : List String → Items
texts [] = Items.nil
texts (s ∷ ss) = Items.cons (Value.str s) (texts ss)

-- {**d, **e}
unfoldable pub merge : Fields → Fields → Fields
merge d empty = d
merge d (field k v e) = merge (put d k v) e

opt_text : Option String → Value
opt_text none = Value.null
opt_text (some s) = Value.str s

-- the `action` namespace of a resolved action, shared with the gate engine
unfoldable pub action_namespace : ResolvedAction → Fields
unfolding opt_text
action_namespace a = field "kind" (Value.str (kind_value a.kind)) (
    field "name" (opt_text a.action) (
      field "resource" (Value.str a.resource) (
        field "reversibility" (Value.str (reversibility_value a.attrs.reversibility)) (
          field "emission" (Value.str (emission_value a.attrs.emission)) (
            field "operativeForce" (Value.str (force_value a.attrs.operative_force)) (
              field "resultSensitivity" (Value.str a.attrs.result_sensitivity) (
                field "explainability" (Value.str (explainability_value a.attrs.explainability))
                  empty)))))))

unfoldable pub actor_namespace : Actor → Fields
unfolding texts
actor_namespace actor =
    merge
      (field "id" (Value.str actor.id)
        (field "roles" (Value.list (texts (sorted actor.roles))) empty))
      actor.claims

-- KillTarget(agent=…, session_id=…): the target of the check before resolution
unfoldable pub pre_target : String → String → KillTarget
pre_target agent session_id = record {
  agent = agent;
  session_id = session_id;
  kind = none;
  resource = none;
  action = none;
  action_ns = empty;
  actor_ns = empty;
  payload = empty;
}

-- `KillTarget.from_resolved`
unfoldable pub target_of : ResolvedAction → Actor → Session → String → KillTarget
target_of a actor session agent = record {
  agent = agent;
  session_id = session.id;
  kind = some a.kind;
  resource = some a.resource;
  action = a.action;
  action_ns = action_namespace a;
  actor_ns = actor_namespace actor;
  payload = a.payload;
}

-- `a == b` on optional texts
abbrev pub opt_eq : Option String → Option String → Bool
opt_eq none none = true
opt_eq (some s) (some t) = str_eq s t
opt_eq none (some t) = false
opt_eq (some s) none = false

-- a facet that is set must equal the target's
abbrev facet_fits : Option String → Option String → Bool
facet_fits none t = true
facet_fits (some s) t = opt_eq (some s) t

abbrev kind_fits : Option Kind → Option Kind → Bool
kind_fits none t = true
kind_fits (some k) none = false
kind_fits (some k) (some l) = kind_eq k l

match_kind : KillScopeKind → KillScope → KillTarget → Bool
match_kind KillScopeKind.global scope t = true
match_kind KillScopeKind.agent scope t = opt_eq scope.agent (some t.agent)
match_kind KillScopeKind.session scope t = opt_eq scope.session_id (some t.session_id)
match_kind KillScopeKind.action_class scope t =
    if not (kind_fits scope.action_kind t.kind)
    then false
    else if not (facet_fits scope.resource t.resource)
    then false
    else facet_fits scope.action t.action

unfoldable pub scope_matches : KillScope → KillTarget → Bool
unfolding match_kind
scope_matches scope t = match_kind scope.kind scope t

-- `except Exception: return True`
abbrev pub or_true : Call Bool → Bool
or_true (ok b) = b
or_true raised = true

-- `evaluate (parse p) ctx` is a parameter: it raises on a predicate that cannot be read.
module _ (holds : String → KillTarget → Call Bool) where
  pub predicate_matches : Option String → KillTarget → Bool
  predicate_matches none t = true
  predicate_matches (some p) t = or_true (holds p t)

  unfoldable pub order_matches : KillOrder → KillTarget → Bool
  unfolding predicate_matches
  order_matches order t =
      if not (active order)
      then false
      else if not (scope_matches order.scope t)
      then false
      else predicate_matches order.predicate t
