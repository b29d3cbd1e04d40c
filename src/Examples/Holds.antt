-- ===== src/Examples/Holds.antt =====
-- Releases and claims of staged rows.
use stonefold.Prelude.{◌≡◌, ◌≢◌, refl, ℕ, String, Option, none, some, List, [], ◌∷◌, All, true}
use stonefold.Outbox.{PendingState, PendingAction, effective_contracts}
use stonefold.Outbox.Release.{released, apply_release, targeted_gates, credit_all, credit, distinct}
use stonefold.Kill.{sorted}
use stonefold.Outbox.Release.Laws.{releases_of, promotion-needs_quorum, IsSound, IsFull}
use stonefold.Outbox.Release.Targets.{bare_release-spares_checks, KeepsChecks}
use stonefold.Outbox.Store.{OutboxStore, row_at, set_row}
use stonefold.Outbox.Store.Claim.{claim_next_pending, claim_ids, fate}
use stonefold.Outbox.Store.Dispatches.{claims-take_distinct, Dispatched}
use stonefold.Examples.Fixtures.{approval_contract, match_contract, held_row, ready_row}

abbrev two_calls : List (String × Option String)
two_calls = ("bob", some "requireApproval") ∷ ("matcher", some "requireMatch") ∷ []

promoted : (releases_of held_row two_calls).state ≡ PendingState.pending
unfolding releases_of apply_release effective_contracts targeted_gates credit_all credit
promoted = refl

sound : All (IsSound "ada") (effective_contracts held_row)
unfolding effective_contracts
sound =
    (record { once = tt; not_self = λ d. refl }, (record { once = tt; not_self = λ d. refl }, tt))

promotion-needs_quorum_example :
    All IsFull (effective_contracts (releases_of held_row two_calls))
    × All (IsSound "ada") (effective_contracts (releases_of held_row two_calls))
promotion-needs_quorum_example = promotion-needs_quorum held_row two_calls refl sound promoted

abbrev after_bare : PendingAction
after_bare = record held_row {
  releases = record approval_contract { satisfied_by = "bob" ∷ [] } ∷ match_contract ∷ [];
  approvals = "bob" ∷ [];
}

bare : apply_release held_row "bob" none ≡ released after_bare
unfolding apply_release effective_contracts targeted_gates credit_all credit sorted distinct
bare = refl

bare_release-spares_checks_example : KeepsChecks (effective_contracts held_row) after_bare.releases
bare_release-spares_checks_example =
    bare_release-spares_checks held_row after_bare "bob" (unfold effective_contracts in refl) bare

abbrev two_ready : OutboxStore
two_ready = record {
  rows = ("t1", ready_row "t1") ∷ ("t2", ready_row "t2") ∷ [];
  order = "t1" ∷ "t2" ∷ [];
  audited = true;
}

abbrev taken_at : ℕ → String → PendingAction
taken_at now ticket = record (ready_row ticket) {
  state = PendingState.dispatching;
  updated_at = now;
}

-- the rows after the first claim
abbrev one_taken : List (String × PendingAction)
one_taken = ("t1", taken_at 9 "t1") ∷ ("t2", ready_row "t2") ∷ []

abbrev both_taken : List (String × PendingAction)
both_taken = ("t1", taken_at 9 "t1") ∷ ("t2", taken_at 11 "t2") ∷ []

claim_first :
    claim_next_pending {W = ℕ} two_ready 9 none none 0
    ≡ record { rows = one_taken; claimed = some (taken_at 9 "t1"); records = []; world = 0 }
unfolding claim_next_pending claim_ids fate row_at set_row
claim_first = refl

claim_second :
    claim_next_pending {W = ℕ} (record two_ready { rows = one_taken }) 11 none none 0
    ≡ record { rows = both_taken; claimed = some (taken_at 11 "t2"); records = []; world = 0 }
unfolding claim_next_pending claim_ids fate row_at set_row
claim_second = refl

claims-take_distinct_example :
    (d : Dispatched two_ready.rows one_taken 9 (taken_at 9 "t1")) × (d' : Dispatched one_taken
      both_taken 11
      (taken_at 11 "t2"))
    × (d.id ≢ d'.id)
unfolding claim_next_pending claim_ids fate row_at set_row
claims-take_distinct_example =
    claims-take_distinct {W = ℕ} two_ready 9 11 none none none none 0 0 (taken_at 9 "t1")
      (taken_at 11 "t2") refl refl
