-- ===== src/Outbox/Release.antt =====
-- `apply_release` of stonefold_core/outbox.py: one identity credited against a row's contracts.
pub mod Laws
pub mod Targets
pub mod Accepts
use stonefold.Prelude.{
  String, Bool, true, false, not, Option, none, some, List, [], ◌∷◌, ◌++◌, ◌&&◌, ◌||◌,
  if◌then◌else◌, str_eq, contains, all, any, map,
}
use stonefold.Models.Records.{ReleaseContract}
use stonefold.Kill.{sorted}
use stonefold.Outbox.{
  PendingState, PendingAction, is_pending_approval, satisfied, effective_contracts,
}

-- ApprovalError in its three uses, SelfApprovalError
pub data ReleaseError : Type 0 where
  not_awaiting no_such_contract ambiguous self_approval : ReleaseError

pub data Released : Type 0 where
  released : PendingAction → Released
  refused : ReleaseError → Released

abbrev pub approval_shaped : ReleaseContract → Bool
approval_shaped c = str_eq c.gate "requireApproval" || str_eq c.gate "dualAuthorization"

gates_of : List ReleaseContract → List String
gates_of [] = []
gates_of (c ∷ cs) = let rest = gates_of cs in if approval_shaped c then c.gate ∷ rest else rest

sole_gate : List ReleaseContract → Option (List String)
sole_gate (c ∷ []) = some (c.gate ∷ [])
sole_gate _ = none

bare_targets : List String → List ReleaseContract → Option (List String)
unfolding sole_gate
bare_targets [] contracts = sole_gate contracts
bare_targets (g ∷ gs) contracts = some (g ∷ gs)

-- `targeted_gates`; `none` is a bare call with no unambiguous target
unfoldable pub targeted_gates : Option String → List ReleaseContract → Option (List String)
unfolding gates_of bare_targets
targeted_gates none contracts = bare_targets (gates_of contracts) contracts
targeted_gates (some gate) contracts = some (gate ∷ [])

-- `gate is not None and not any(c.gate == gate for c in contracts)`
names_no_contract : Option String → List ReleaseContract → Bool
names_no_contract none contracts = false
names_no_contract (some gate) contracts =
    not (any (λ (c : ReleaseContract). str_eq c.gate gate) contracts)

-- One pass of the loop: the contract, whether it was credited, whether it refused the actor.
unfoldable pub credit :
    List String → String → String → ReleaseContract → ReleaseContract × Bool × Bool
credit targets approver_id actor_id c =
    if not (contains targets c.gate && not (satisfied c)) || contains c.satisfied_by approver_id
    then (c, false, false)
    else if (c.dual_auth || c.distinct_from_actor) && str_eq approver_id actor_id
    then (c, false, true)
    else (record c { satisfied_by = c.satisfied_by ++ approver_id ∷ [] }, true, false)

unfoldable pub credit_all :
    List String → String → String → List ReleaseContract → List ReleaseContract × Bool × Bool
credit_all targets approver_id actor_id [] = ([], false, false)
credit_all targets approver_id actor_id (c ∷ cs) =
    let (c', credited, self) = credit targets approver_id actor_id c in
    let (cs', credited', self') = credit_all targets approver_id actor_id cs in
    (c' ∷ cs', credited || credited', self || self')

-- set(xs)
unfoldable pub distinct : List String → List String
distinct [] = []
distinct (s ∷ ss) = let rest = distinct ss in if contains rest s then rest else s ∷ rest

finish : PendingAction → String → List ReleaseContract × Bool × Bool → Released
finish row approver_id (updated, credited, refused_self) =
    if not credited && refused_self
    then refused self_approval
    else released (record row {
      releases = updated;
      approvals =
          if credited then sorted (distinct (approver_id ∷ row.approvals)) else row.approvals;
      state = if all satisfied updated then PendingState.pending else PendingState.pending_approval;
    })

release_targets : PendingAction → String → List ReleaseContract → Option (List String) → Released
unfolding finish
release_targets row approver_id contracts none = refused ambiguous
release_targets row approver_id contracts (some targets) =
    finish row approver_id (credit_all targets approver_id row.actor.id contracts)

unfoldable pub apply_release : PendingAction → String → Option String → Released
unfolding names_no_contract release_targets
apply_release row approver_id gate =
    let contracts = effective_contracts row in
    if not (is_pending_approval row.state)
    then refused not_awaiting
    else if names_no_contract gate contracts
    then refused no_such_contract
    else release_targets row approver_id contracts (targeted_gates gate contracts)
