-- ===== src/Outbox/Release/Accepts.antt =====
-- An identity that is not the actor is never refused at a gate that the row declares.
use stonefold.Prelude.{
  ◌≡◌, refl, String, Bool, true, false, some, List, [], ◌∷◌, str_eq, arith, any,
}
use stonefold.Models.Records.{ReleaseContract}
use stonefold.Outbox.{PendingAction, is_pending_approval, effective_contracts}
use stonefold.Outbox.Release.{
  Released, released, refused, apply_release, credit, credit_all, finish, release_targets,
  names_no_contract, targeted_gates,
}

credit-not_self :
    (targets : List String) (who actor_id : String) (c : ReleaseContract)
    → str_eq who actor_id ≡ false
    → (credit targets who actor_id c).2 ≡ false
unfolding credit
credit-not_self targets who actor_id c other = ground arith

credit_all-not_self :
    (targets : List String) (who actor_id : String) (cs : List ReleaseContract)
    → str_eq who actor_id ≡ false
    → (credit_all targets who actor_id cs).2 ≡ false
unfolding credit_all
credit_all-not_self targets who actor_id [] other = refl
credit_all-not_self targets who actor_id (c ∷ cs) other = ground (
  arith,
  credit-not_self targets who actor_id c other,
  credit_all-not_self targets who actor_id cs other,
)

abbrev pub is_refused : Released → Bool
is_refused (refused e) = true
is_refused (released r) = false

pub apply_release-accepts :
    (row : PendingAction) (who gate : String)
    → is_pending_approval row.state ≡ true
    → any (λ (c : ReleaseContract). str_eq c.gate gate) (effective_contracts row) ≡ true
    → str_eq who row.actor.id ≡ false
    → is_refused (apply_release row who (some gate)) ≡ false
unfolding apply_release names_no_contract release_targets finish targeted_gates
apply_release-accepts row who gate held declared other =
    let self = credit_all-not_self (gate ∷ []) who row.actor.id (effective_contracts row) other in
    ground (arith, held, declared, self)
