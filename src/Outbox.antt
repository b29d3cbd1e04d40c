-- ===== src/Outbox.antt =====
-- stonefold_core/outbox.py: staged rows, the identity of a hold, release contracts.
pub mod Release
pub mod Store
use Prim.Native.Char.{Char}
use stonefold.Prelude.{
  ℕ, String, Bool, true, false, not, Option, none, some, List, [], ◌∷◌, map, ◌&&◌, ◌||◌,
  if◌then◌else◌, str_eq, split, any, length, leb,
}
use stonefold.Values.{Value, Fields, PyText, py_str, walk, empty}
use stonefold.Models.Enums.{Outcome, EnforcementMode, holds}
use stonefold.Models.Records.{
  ResolvedAction, Actor, Session, GateResult, ApprovalSpec, ReleaseContract, Compensation,
  ObligationClaim, ApprovalAudit,
}

pub data PendingState : Type 0 where
  pending_approval pending dispatching done failed cancelled : PendingState

abbrev pub is_pending_approval : PendingState → Bool
is_pending_approval PendingState.pending_approval = true
is_pending_approval PendingState.pending = false
is_pending_approval PendingState.dispatching = false
is_pending_approval PendingState.done = false
is_pending_approval PendingState.failed = false
is_pending_approval PendingState.cancelled = false

abbrev pub is_pending : PendingState → Bool
is_pending PendingState.pending = true
is_pending PendingState.pending_approval = false
is_pending PendingState.dispatching = false
is_pending PendingState.done = false
is_pending PendingState.failed = false
is_pending PendingState.cancelled = false

-- `result`, the connector's receipt, is not kept: nothing in the modelled code reads it back.
pub record PendingAction : Type 0 where
  pub id : String
  pub idempotency_key : String
  pub state : PendingState
  pub agent : String
  pub resolved : ResolvedAction
  pub actor : Actor
  pub session_id : String
  pub correlation_id : Option String
  pub gates : List GateResult
  pub approval : Option ApprovalSpec
  pub approvals : List String
  pub attempts : ℕ
  pub releases : List ReleaseContract
  pub compensation : Option Compensation
  pub obligation : Option ObligationClaim
  pub enforcement : EnforcementMode
  pub reason : Option String
  pub expires_at : Option ℕ
  pub created_at : ℕ
  pub updated_at : ℕ

-- The identity of a hold: for each holding gate its code, its evidence and the compared values.
pub record HoldEntry : Type 0 where
  pub gate : String
  pub code : String
  pub evidence : String
  pub compared : List (String × String)

pub record HoldIdentity : Type 0 where
  pub resource : String
  pub action : Option String
  pub entries : List HoldEntry

abbrev dot : Char
dot = "."

module _ (text : PyText) where
  evidence_text : Option Fields → String
  evidence_text none = ""
  evidence_text (some empty) = ""
  evidence_text (some d) = text.dumps d

  compared_value : Fields → List String → String
  compared_value payload [] = ""
  compared_value payload (root ∷ parts) =
      if str_eq root "data" then py_str text (walk (Value.dict payload) parts) else ""

  compared_pair : Fields → String → String × String
  unfolding compared_value
  compared_pair payload path = (path, compared_value payload (split path dot))

  unfoldable pub hold_entries : Fields → List GateResult → List HoldEntry
  unfolding evidence_text compared_pair
  hold_entries payload [] = []
  hold_entries payload (g ∷ gs) =
      let rest = hold_entries payload gs in
      if holds g.outcome
      then record {
        gate = g.gate;
        code = g.code;
        evidence = evidence_text g.evidence;
        compared = map (compared_pair payload) g.fields;
      }
        ∷ rest
      else rest

  unfoldable pub hold_identity : ResolvedAction → List GateResult → Option HoldIdentity
  hold_identity a gates =
      let entries = hold_entries a.payload gates in
      if any (λ (e : HoldEntry). not (str_eq e.code "")) entries
      then some (record { resource = a.resource; action = a.action; entries = entries })
      else none

pairs_eq : List (String × String) → List (String × String) → Bool
pairs_eq [] [] = true
pairs_eq ((a, b) ∷ ps) ((c, d) ∷ qs) = str_eq a c && str_eq b d && pairs_eq ps qs
pairs_eq _ _ = false

entries_eq : List HoldEntry → List HoldEntry → Bool
unfolding pairs_eq
entries_eq [] [] = true
entries_eq (a ∷ as') (b ∷ bs) =
    str_eq a.gate b.gate
    && str_eq a.code b.code
    && str_eq a.evidence b.evidence
    && pairs_eq a.compared b.compared
    && entries_eq as' bs
entries_eq _ _ = false

opt_eq : Option String → Option String → Bool
opt_eq none none = true
opt_eq (some s) (some t) = str_eq s t
opt_eq _ _ = false

unfoldable pub identity_eq : HoldIdentity → HoldIdentity → Bool
unfolding entries_eq opt_eq
identity_eq a b =
    str_eq a.resource b.resource && opt_eq a.action b.action && entries_eq a.entries b.entries

-- `satisfied`
abbrev pub satisfied : ReleaseContract → Bool
satisfied c = leb c.quorum (length c.satisfied_by)

-- `contract_from_approval`
unfoldable pub contract_from_approval : ApprovalSpec → ReleaseContract
contract_from_approval spec =
    let gate = if spec.dual_auth then "dualAuthorization" else "requireApproval" in
    record {
      gate = gate;
      cause = gate;
      quorum = spec.quorum;
      dual_auth = spec.dual_auth;
      distinct_from_actor = spec.distinct_from_actor;
      approvers = spec.approvers;
      timeout = spec.timeout;
      on_timeout = spec.on_timeout;
      reason_code = "";
      evidence = none;
      satisfied_by = [];
    }

-- ApprovalSpec()
abbrev pub default_spec : ApprovalSpec
default_spec = record {
  quorum = 1;
  dual_auth = false;
  distinct_from_actor = false;
  approvers = [];
  timeout = none;
  on_timeout = "deny";
}

legacy_contract : Option ApprovalSpec → ReleaseContract
legacy_contract none = contract_from_approval default_spec
legacy_contract (some spec) = contract_from_approval spec

contracts_or : List ReleaseContract → ReleaseContract → List ReleaseContract
contracts_or [] c = c ∷ []
contracts_or (r ∷ rs) c = r ∷ rs

unfoldable pub effective_contracts : PendingAction → List ReleaseContract
unfolding contracts_or legacy_contract
effective_contracts row =
    let legacy = legacy_contract row.approval in
    contracts_or row.releases (record legacy { satisfied_by = row.approvals })

unfoldable pub releases_audit : PendingAction → String → Option ApprovalAudit
releases_audit row status = elim row.releases [
  | [] ↦ none
  | r ∷ rs ↦ some (record { status = status; ticket = some row.id; spec = none; releases = r ∷ rs })
]
