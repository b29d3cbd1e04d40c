-- ===== src/Outbox/Store/Checked.antt =====
-- A row is claimed only as its checks let it pass.
use stonefold.Prelude.{
  ℕ, String, ◌≡◌, sym, ◌∙◌, Bool, false, Option-cases, inl, inr, Option, none, some, List, [], ◌∷◌,
  arith,
}
use stonefold.Outbox.{PendingAction}
use stonefold.Outbox.Store.{OutboxStore, row_at, set_row, cancel}
use stonefold.Outbox.Store.Claim.{Fate, fate, is_killed, claim_ids, claim_next_pending}
use stonefold.Outbox.Store.Dispatches.{
  taken, Fate-cases, claim, next_world, claim-missing, claim-skip, claim-killed, claim-stale,
  claim-dispatch,
}

module _ {W : Type 0} (kill_check : Option (PendingAction → Bool))
    (stale_check : Option (PendingAction → W → Option String × W)) where
  -- The row as it was when its checks were made, and the world that they saw.
  pub record IsChecked (now : ℕ) (row : PendingAction) : Type 0 where
    pub from : PendingAction
    pub at : W
    pub is_taken : row ≡ taken from now
    pub passed : (fate kill_check stale_check from at).0 ≡ Fate.dispatch

  module _ (audited : Bool) (now : ℕ) where
    claim-IsChecked :
        (ids : List String) (rows : List (String × PendingAction)) (w : W) (row : PendingAction)
        → (claim kill_check stale_check audited now ids rows w).claimed ≡ some row
        → IsChecked now row
    claim-IsChecked [] rows w row h = absurd (unfold claim_ids in ground (arith, h))
    claim-IsChecked (id ∷ ids) rows w row h = elim (Option-cases (row_at rows id)) [
      | inl e ↦
          claim-IsChecked ids rows w row
            (rw (claim-missing kill_check stale_check audited now id ids rows w e) at h)
      | inr (q, e) ↦
          let w' = next_world kill_check stale_check audited now id ids rows w q e in
          elim (Fate-cases (fate kill_check stale_check q w).0) [
            | inl (inl s) ↦
                claim-IsChecked ids rows w' row
                  (rw (claim-skip kill_check stale_check audited now id ids rows w q e s) at h)
            | inl (inr s) ↦
                claim-IsChecked ids (set_row rows id (cancel q "kill" now)) w' row
                  (rw (claim-killed kill_check stale_check audited now id ids rows w q e s) at h)
            | inr (inl (r, x)) ↦
                let (k, l) = claim-stale kill_check stale_check audited now id ids rows w q e r x in
                claim-IsChecked ids (set_row rows id (cancel q r now)) w' row (sym k ∙ h)
            | inr (inr d) ↦
                let (k, l) =
                  claim-dispatch kill_check stale_check audited now id ids rows w q e d in
                record { from = q; at = w; is_taken = cc (h, k); passed = d }
          ]
    ]

pub claim_next_pending-IsChecked :
    {W : Type 0} (s : OutboxStore) (now : ℕ) (kill_check : Option (PendingAction → Bool))
    (stale_check : Option (PendingAction → W → Option String × W)) (w : W) (row : PendingAction)
    → (claim_next_pending s now kill_check stale_check w).claimed ≡ some row
    → IsChecked kill_check stale_check now row
unfolding claim_next_pending
claim_next_pending-IsChecked s now kill_check stale_check w row h =
    claim-IsChecked kill_check stale_check s.audited now s.order s.rows w row h

module _ {W : Type 0} (kill_check : Option (PendingAction → Bool))
    (check : PendingAction → W → Option String × W) (row : PendingAction) (w : W) where
  pub fate-dispatch-passes :
      (fate kill_check (some check) row w).0 ≡ Fate.dispatch
      → (is_killed kill_check row ≡ false) × ((check row w).0 ≡ none)
  unfolding fate
  fate-dispatch-passes h = (ground (arith, h), ground (arith, h))
