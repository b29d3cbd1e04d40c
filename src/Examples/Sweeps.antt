-- ===== src/Examples/Sweeps.antt =====
-- A sweep that finds one lapsed hold beside a row that is ready.
use stonefold.Prelude.{
  Bool, all, String, none, sym, ap, ◌∙◌, Option, ◌≡◌, refl, some, [], ◌∷◌, true, false, str_eq,
  arith, eq_iff,
}
use stonefold.Outbox.{PendingAction, effective_contracts}
use stonefold.Outbox.Store.{OutboxStore, row_at, list_by_state, settle}
use stonefold.Outbox.Store.Listed.{IsKeyed, IsDistinct}
use stonefold.Dispatch.Sweep.{
  sweep_expired_holds, sweep_rows, sweep_row, cancel_hold, deed, timed_out, credit_timeout,
}
use stonefold.Dispatch.Sweep.Expiry.{IsExpired}
use stonefold.Dispatch.Sweep.Holds.{sweep-expires, sweep-spares}
use stonefold.Dispatch.Sweep.Completes.{in_calendar, sweep-completes}
use stonefold.Models.Records.{ReleaseContract}
use stonefold.Outbox.Release.{apply_release, released, targeted_gates, credit_all, credit}
use stonefold.Examples.Fixtures.{approval_contract, match_contract, held_row, ready_row}

-- the approval is there; the match is still open
abbrev released_once : ReleaseContract
released_once = record approval_contract { satisfied_by = "bob" ∷ [] }

abbrev lapsed_row : PendingAction
lapsed_row = record held_row {
  expires_at = some 40;
  releases = released_once ∷ match_contract ∷ [];
}

abbrev waiting : OutboxStore
waiting = record {
  rows = (held_row.id, lapsed_row) ∷ ("t2", ready_row "t2") ∷ [];
  order = held_row.id ∷ "t2" ∷ [];
  audited = true;
}

waiting-IsKeyed : IsKeyed waiting
unfolding IsKeyed row_at
waiting-IsKeyed id r e = ground (arith, eq_iff held_row.id id, eq_iff "t2" id)

completes : (sweep_expired_holds 50 51 waiting).error ≡ none
unfolding sweep_expired_holds sweep_rows sweep_row cancel_hold deed list_by_state settle row_at
completes = refl

sweep-expires_example :
    IsExpired held_row.id match_contract.gate (sweep_expired_holds 50 51 waiting).store
sweep-expires_example =
    sweep-expires 50 51 waiting waiting-IsKeyed held_row.id lapsed_row (unfold row_at in refl) 40
      (released_once ∷ []) match_contract [] refl refl refl refl
      (unfold effective_contracts in refl) refl refl completes

sweep-spares_example :
    row_at (sweep_expired_holds 50 51 waiting).store.rows "t2" ≡ some (ready_row "t2")
sweep-spares_example =
    sweep-spares 50 51 waiting waiting-IsKeyed "t2" (ready_row "t2") (unfold row_at in refl) refl

actor_of : Option PendingAction → String
actor_of none = "ada"
actor_of (some r) = r.actor.id

waiting-actor : (id : String) → actor_of (row_at waiting.rows id) ≡ "ada"
unfolding row_at actor_of
waiting-actor id = ground arith

waiting-strangers :
    (id : String) (row : PendingAction)
    → row_at waiting.rows id ≡ some row
    → str_eq "system:timeout" row.actor.id ≡ false
unfolding actor_of
waiting-strangers id row e =
    ap (λ o. str_eq "system:timeout" (actor_of o)) (sym e)
    ∙ ap (str_eq "system:timeout") (waiting-actor id)

no_deadlines : Option PendingAction → Bool
no_deadlines none = true
no_deadlines (some r) = all (in_calendar r.created_at) (effective_contracts r)

waiting-timed : (id : String) → no_deadlines (row_at waiting.rows id) ≡ true
unfolding row_at no_deadlines effective_contracts
waiting-timed id = ground arith

waiting-timely :
    (id : String) (row : PendingAction)
    → row_at waiting.rows id ≡ some row
    → all (in_calendar row.created_at) (effective_contracts row) ≡ true
unfolding no_deadlines
waiting-timely id row e = ap no_deadlines (sym e) ∙ waiting-timed id

sweep-completes_example : (sweep_expired_holds 50 51 waiting).error ≡ none
sweep-completes_example =
    sweep-completes 50 51 waiting waiting-IsKeyed (unfold IsDistinct in (refl, (refl, tt)))
      waiting-strangers waiting-timely

-- A contract for two that allows at its timeout gets one credit, and every later sweep tries to give
-- it again, whatever the contracts behind it declare.
abbrev for_two : ReleaseContract
for_two = record approval_contract {
  quorum = 2;
  timeout = some 10;
  on_timeout = "allow";
  satisfied_by = "system:timeout" ∷ [];
}

abbrev denying : ReleaseContract
denying = record match_contract { timeout = some 10; on_timeout = "deny" }

abbrev stuck_row : PendingAction
stuck_row = record held_row { releases = for_two ∷ denying ∷ [] }

credited_again : deed 99 stuck_row ≡ credit_timeout for_two.gate
unfolding deed timed_out effective_contracts
credited_again = refl

credited_in_vain : apply_release stuck_row "system:timeout" (some for_two.gate) ≡ released stuck_row
unfolding apply_release effective_contracts targeted_gates credit_all credit
credited_in_vain = refl
