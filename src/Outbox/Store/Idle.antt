-- ===== src/Outbox/Store/Idle.antt =====
-- A claim that hands out nothing leaves no pending row behind.
use stonefold.Prelude.{
  ℕ, String, ◌≡◌, refl, Bool, false, Option-cases, inl, inr, Option, none, some, List, [], ◌∷◌,
  arith, All, ap, sym,
}
use mathlib.Core.Path.{subst}
use stonefold.Outbox.{PendingAction, is_pending}
use stonefold.Outbox.Store.{OutboxStore, row_at, set_row, list_rows, list_by_state, cancel}
use stonefold.Outbox.Store.Claim.{fate, Fate, claim_ids, claim_next_pending}
use stonefold.Outbox.Store.Dispatches.{
  row_at-set_row, is_refl, taken, Fate-cases, claim, next_world, claim-missing, claim-skip,
  claim-killed, claim-stale, claim-dispatch,
}

abbrev pending_at : Option PendingAction → Bool
pending_at none = false
pending_at (some r) = is_pending r.state

-- no row of the ticket is pending
abbrev IsIdle : List (String × PendingAction) → String → Type 0
IsIdle rows id = pending_at (row_at rows id) ≡ false

IsIdle-set :
    (rows : List (String × PendingAction)) (id j : String) (r : PendingAction)
    → is_pending r.state ≡ false
    → IsIdle rows j
    → IsIdle (set_row rows id r) j
IsIdle-set rows id j r h idle = ground (arith, row_at-set_row rows id j r, h, idle)

IsIdle-set_self :
    (rows : List (String × PendingAction)) (id : String) (r : PendingAction)
    → is_pending r.state ≡ false
    → IsIdle (set_row rows id r) id
IsIdle-set_self rows id r h = ground (arith, row_at-set_row rows id id r, is_refl id, h)

list_rows-none :
    (rows : List (String × PendingAction)) (ids : List String)
    → All (IsIdle rows) ids
    → list_rows is_pending rows ids ≡ []
unfolding list_rows
list_rows-none rows [] h = refl
list_rows-none rows (id ∷ ids) (h, hs) = ground (arith, h, list_rows-none rows ids hs)

IsIdle-more :
    (before after : List (String × PendingAction)) (id : String) (ids : List String)
    → after ≡ before
    → IsIdle before id
    → All (IsIdle before) ids
    → All (IsIdle after) (id ∷ ids)
IsIdle-more before after id ids same h hs =
    subst (λ rows. All (IsIdle rows) (id ∷ ids)) (sym same) (h, hs)

module _ {W : Type 0} (kill_check : Option (PendingAction → Bool))
    (stale_check : Option (PendingAction → W → Option String × W)) where
  fate-skip :
      (row : PendingAction) (w : W)
      → (fate kill_check stale_check row w).0 ≡ Fate.skip
      → is_pending row.state ≡ false
  unfolding fate
  fate-skip row w h = ground arith

  module _ (audited : Bool) (now : ℕ) where
    abbrev claimed_rows :
        List String → List (String × PendingAction) → W → List (String × PendingAction)
    claimed_rows ids rows w = (claim kill_check stale_check audited now ids rows w).rows

    -- a claim makes no row pending
    claim-IsIdle :
        (ids : List String) (rows : List (String × PendingAction)) (w : W) (j : String)
        → IsIdle rows j
        → IsIdle (claimed_rows ids rows w) j
    claim-IsIdle [] rows w j h = unfold claim_ids in h
    claim-IsIdle (id ∷ ids) rows w j h = elim (Option-cases (row_at rows id)) [
      | inl e ↦
          rw (claimed_rows, claim-missing kill_check stale_check audited now id ids rows w e)
            (claim-IsIdle ids rows w j h)
      | inr (q, e) ↦
          let w' = next_world kill_check stale_check audited now id ids rows w q e in
          elim (Fate-cases (fate kill_check stale_check q w).0) [
            | inl (inl s) ↦
                rw (claimed_rows, claim-skip kill_check stale_check audited now id ids rows w q e s)
                  (claim-IsIdle ids rows w' j h)
            | inl (inr s) ↦
                rw
                  (
                    claimed_rows,
                    claim-killed kill_check stale_check audited now id ids rows w q e s,
                  )
                  (claim-IsIdle ids (set_row rows id (cancel q "kill" now)) w' j
                    (IsIdle-set rows id j (cancel q "kill" now) (unfold cancel in refl) h))
            | inr (inl (r, x)) ↦
                rw
                  (
                    claimed_rows,
                    (claim-stale kill_check stale_check audited now id ids rows w q e r x).1,
                  )
                  (claim-IsIdle ids (set_row rows id (cancel q r now)) w' j
                    (IsIdle-set rows id j (cancel q r now) (unfold cancel in refl) h))
            | inr (inr d) ↦
                rw
                  (
                    claimed_rows,
                    (claim-dispatch kill_check stale_check audited now id ids rows w q e d).1,
                  )
                  (IsIdle-set rows id j (taken q now) refl h)
          ]
    ]

    claim-IsIdle_self :
        (ids : List String) (rows : List (String × PendingAction)) (w : W) (id : String)
        (c : PendingAction)
        → is_pending c.state ≡ false
        → IsIdle (claimed_rows ids (set_row rows id c) w) id
    claim-IsIdle_self ids rows w id c off =
        claim-IsIdle ids (set_row rows id c) w id (IsIdle-set_self rows id c off)

    claim-AreIdle :
        (ids : List String) (rows : List (String × PendingAction)) (w : W)
        → (claim kill_check stale_check audited now ids rows w).claimed ≡ none
        → All (IsIdle (claimed_rows ids rows w)) ids
    claim-AreIdle [] rows w h = tt
    claim-AreIdle (id ∷ ids) rows w h = elim (Option-cases (row_at rows id)) [
      | inl e ↦
          let k = claim-missing kill_check stale_check audited now id ids rows w e in
          IsIdle-more _ _ id ids (ap (λ c. c.rows) k) (claim-IsIdle ids rows w id (rw e refl))
            (claim-AreIdle ids rows w (rw k at h))
      | inr (q, e) ↦
          let w' = next_world kill_check stale_check audited now id ids rows w q e in
          elim (Fate-cases (fate kill_check stale_check q w).0) [
            | inl (inl s) ↦
                let k = claim-skip kill_check stale_check audited now id ids rows w q e s in
                IsIdle-more _ _ id ids (ap (λ c. c.rows) k)
                  (claim-IsIdle ids rows w' id (rw e (fate-skip q w s)))
                  (claim-AreIdle ids rows w' (rw k at h))
            | inl (inr s) ↦
                let k = claim-killed kill_check stale_check audited now id ids rows w q e s in
                let c = cancel q "kill" now in
                IsIdle-more _ _ id ids (ap (λ c. c.rows) k)
                  (claim-IsIdle_self ids rows w' id c (unfold cancel in refl))
                  (claim-AreIdle ids (set_row rows id c) w' (rw k at h))
            | inr (inl (r, x)) ↦
                let (k, l) = claim-stale kill_check stale_check audited now id ids rows w q e r x in
                let c = cancel q r now in
                IsIdle-more _ _ id ids l
                  (claim-IsIdle_self ids rows w' id c (unfold cancel in refl))
                  (claim-AreIdle ids (set_row rows id c) w' (rw k at h))
            | inr (inr d) ↦
                let (k, l) =
                  claim-dispatch kill_check stale_check audited now id ids rows w q e d in
                absurd (ground (arith, k, h))
          ]
    ]

-- A claim that hands out no row leaves none pending: every row that was ready it has cancelled.
pub claim-leaves_no_pending :
    {W : Type 0} (s : OutboxStore) (now : ℕ) (kill_check : Option (PendingAction → Bool))
    (stale_check : Option (PendingAction → W → Option String × W)) (w : W)
    → (claim_next_pending s now kill_check stale_check w).claimed ≡ none
    → list_by_state
        (record s { rows = (claim_next_pending s now kill_check stale_check w).rows })
        is_pending
      ≡ []
unfolding claim_next_pending list_by_state
claim-leaves_no_pending s now kill_check stale_check w h =
    list_rows-none (claim_next_pending s now kill_check stale_check w).rows s.order
      (claim-AreIdle kill_check stale_check s.audited now s.order s.rows w h)
