-- ===== src/Outbox/Store/Dispatches.antt =====
-- A staged row is dispatched at most once.
use stonefold.Prelude.{
  ℕ, String, ◌≡◌, refl, Bool, true, Option, none, some, List, [], ◌∷◌, if◌then◌else◌, str_eq,
  eq_iff, arith, Option-cases, inl, inr, ◌⊎◌, ◌≢◌, sym, ◌∙◌, ap,
}
use stonefold.Outbox.{PendingState, PendingAction}
use stonefold.Outbox.Store.{OutboxStore, row_at, set_row, cancel}
use stonefold.Outbox.Store.Claim.{Fate, fate, ClaimResult, claim_ids, claim_next_pending}

pub row_at-set_row :
    (rows : List (String × PendingAction)) (id j : String) (r : PendingAction)
    → row_at (set_row rows id r) j ≡ (if str_eq id j then some r else row_at rows j)
unfolding row_at set_row
row_at-set_row [] id j r = refl
row_at-set_row ((i, q) ∷ rest) id j r =
    ground (arith, eq_iff i id, eq_iff i j, eq_iff id j, row_at-set_row rest id j r)

pub is_refl : (s : String) → str_eq s s ≡ true
is_refl s = (eq_iff s s).1 refl

abbrev pub taken : PendingAction → ℕ → PendingAction
taken row now = record row { state = PendingState.dispatching; updated_at = now }

-- What a claim of a row says of the rows before and after it.
pub record Dispatched (before after : List (String × PendingAction)) (now : ℕ) (row : PendingAction)
    : Type 0 where
  pub id : String
  pub from : PendingAction
  pub was_pending : from.state ≡ PendingState.pending
  pub was_there : row_at before id ≡ some from
  pub is_taken : row ≡ taken from now
  pub is_there : row_at after id ≡ some row

pub Fate-cases :
    (f : Fate)
    → ((f ≡ Fate.skip) ⊎ (f ≡ Fate.killed))
      ⊎ (((r : String) × (f ≡ Fate.stale r)) ⊎ (f ≡ Fate.dispatch))
Fate-cases Fate.skip = inl (inl refl)
Fate-cases Fate.killed = inl (inr refl)
Fate-cases (Fate.stale r) = inr (inl (r, refl))
Fate-cases Fate.dispatch = inr (inr refl)

module _ {W : Type 0} (kill_check : Option (PendingAction → Bool))
    (stale_check : Option (PendingAction → W → Option String × W)) where
  fate-dispatch :
      (row : PendingAction) (w : W)
      → (fate kill_check stale_check row w).0 ≡ Fate.dispatch
      → row.state ≡ PendingState.pending
  unfolding fate
  fate-dispatch row w h = ground arith

  -- rows cancelled on the way are not pending, so a pending row was there before
  Dispatched-set :
      {rows after : List (String × PendingAction)} {now : ℕ} {row : PendingAction} (id : String)
      (r : PendingAction)
      → r.state ≡ PendingState.cancelled
      → Dispatched (set_row rows id r) after now row
      → Dispatched rows after now row
  Dispatched-set {rows} {after} {now} {row} id r c d = record {
    id = d.id;
    from = d.from;
    was_pending = d.was_pending;
    was_there = ground (arith, row_at-set_row rows id d.id r, d.was_there, d.was_pending);
    is_taken = d.is_taken;
    is_there = d.is_there;
  }

  module _ (audited : Bool) (now : ℕ) where
    abbrev pub claim : List String → List (String × PendingAction) → W → ClaimResult W
    claim = claim_ids audited now kill_check stale_check

    module _ (id : String) (ids : List String) (rows : List (String × PendingAction)) (w : W) where
      pub claim-missing : row_at rows id ≡ none → claim (id ∷ ids) rows w ≡ claim ids rows w
      unfolding claim_ids
      claim-missing e = rw (e, claim_ids)

      module _ (q : PendingAction) (found : row_at rows id ≡ some q) where
        abbrev pub next_world : W
        next_world = (fate kill_check stale_check q w).1

        pub claim-skip :
            (fate kill_check stale_check q w).0 ≡ Fate.skip
            → claim (id ∷ ids) rows w ≡ claim ids rows next_world
        unfolding claim_ids
        claim-skip f = rw (found, f, claim_ids)

        pub claim-killed :
            (fate kill_check stale_check q w).0 ≡ Fate.killed
            → claim (id ∷ ids) rows w ≡ claim ids (set_row rows id (cancel q "kill" now)) next_world
        unfolding claim_ids
        claim-killed f = rw (found, f, claim_ids)

        pub claim-stale :
            (r : String)
            → (fate kill_check stale_check q w).0 ≡ Fate.stale r
            → ((claim (id ∷ ids) rows w).claimed
                ≡ (claim ids (set_row rows id (cancel q r now)) next_world).claimed)
              × ((claim (id ∷ ids) rows w).rows
                  ≡ (claim ids (set_row rows id (cancel q r now)) next_world).rows)
        unfolding claim_ids
        claim-stale r f = (rw (found, f, claim_ids), rw (found, f, claim_ids))

        pub claim-dispatch :
            (fate kill_check stale_check q w).0 ≡ Fate.dispatch
            → ((claim (id ∷ ids) rows w).claimed ≡ some (taken q now))
              × ((claim (id ∷ ids) rows w).rows ≡ set_row rows id (taken q now))
        unfolding claim_ids
        claim-dispatch f = (rw (found, f, claim_ids), rw (found, f, claim_ids))

    claim-Dispatched :
        (ids : List String) (rows : List (String × PendingAction)) (w : W) (row : PendingAction)
        → (claim ids rows w).claimed ≡ some row
        → Dispatched rows (claim ids rows w).rows now row
    unfolding claim_ids
    claim-Dispatched [] rows w row h = cc
    claim-Dispatched (id ∷ ids) rows w row h = elim (Option-cases (row_at rows id)) [
      | inl e ↦
          let k = claim-missing id ids rows w e in
          rw k (claim-Dispatched ids rows w row (rw k at h))
      | inr (q, e) ↦ elim (Fate-cases (fate kill_check stale_check q w).0) [
        | inl (inl s) ↦
            let k = claim-skip id ids rows w q e s in
            rw k (claim-Dispatched ids rows (next_world id ids rows w q e) row (rw k at h))
        | inl (inr s) ↦
            let k = claim-killed id ids rows w q e s in
            rw k (
              Dispatched-set id (cancel q "kill" now) (unfold cancel in refl)
                (claim-Dispatched ids _ _ row (rw k at h)))
        | inr (inl (r, x)) ↦
            let (k, l) = claim-stale id ids rows w q e r x in
            rw l (
              Dispatched-set id (cancel q r now) (unfold cancel in refl)
                (claim-Dispatched ids _ _ row (rw k at h)))
        | inr (inr d) ↦
            let (k, l) = claim-dispatch id ids rows w q e d in
            rw l (record {
              id = id;
              from = q;
              was_pending = fate-dispatch q w d;
              was_there = e;
              is_taken = cc (h, k);
              is_there = rw row_at-set_row (rw (is_refl id) (sym k ∙ h));
            })
      ]
    ]

module _ {W : Type 0} (s : OutboxStore) (now later : ℕ)
    (kill_check kill_check' : Option (PendingAction → Bool))
    (stale_check stale_check' : Option (PendingAction → W → Option String × W)) (w w' : W) where
  abbrev pub first : ClaimResult W
  first = claim_next_pending s now kill_check stale_check w

  abbrev pub second : ClaimResult W
  second = claim_next_pending (record s { rows = first.rows }) later kill_check' stale_check' w'

  -- Two claims in a row, whatever their checks find, never hand out the same ticket: each takes a
  -- row that was pending, and what the first took stands in the store as dispatching.
  pub claims-take_distinct :
      (row row' : PendingAction)
      → first.claimed ≡ some row
      → second.claimed ≡ some row'
      → (d : Dispatched s.rows first.rows now row) × (d' : Dispatched first.rows second.rows later
          row')
        × (d.id ≢ d'.id)
  unfolding claim_next_pending
  claims-take_distinct row row' h h' =
      let d = claim-Dispatched kill_check stale_check s.audited now s.order s.rows w row h in
      let d' =
        claim-Dispatched kill_check' stale_check' s.audited later s.order first.rows w' row' h' in
      (
        d,
        d',
        λ e.
            ground (
              arith,
              d.is_there,
              d.is_taken,
              d'.was_there,
              d'.was_pending,
              ap (row_at first.rows) e,
            ),
      )
