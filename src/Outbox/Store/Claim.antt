-- ===== src/Outbox/Store/Claim.antt =====
-- stonefold_store/outbox_memory.py: the claim of the next pending row, with its checks of kill orders
-- and freshness.
use stonefold.Prelude.{
  ℕ, String, Bool, false, not, Option, none, some, List, [], ◌∷◌, ◌++◌, if◌then◌else◌,
}
use stonefold.Models.Records.{AuditRecord}
use stonefold.Outbox.{PendingState, PendingAction, is_pending}
use stonefold.Outbox.Store.{OutboxStore, row_at, set_row, cancel, cancellation_record}

-- The claim of the next pending row. The world is what the freshness check reads and may change.
pub data Fate : Type 0 where
  skip killed dispatch : Fate
  stale : String → Fate

pub record ClaimResult (W : Type 0) : Type 0 where
  pub rows : List (String × PendingAction)
  pub claimed : Option PendingAction
  pub records : List AuditRecord
  pub world : W

unfoldable pub is_killed : Option (PendingAction → Bool) → PendingAction → Bool
is_killed none row = false
is_killed (some check) row = check row

module _ {W : Type 0} where
  is_stale : Option (PendingAction → W → Option String × W) → PendingAction → W → Fate × W
  is_stale none row w = (Fate.dispatch, w)
  is_stale (some check) row w =
      let (reason, w') = check row w in
      (elim reason [ none ↦ Fate.dispatch | some r ↦ Fate.stale r ], w')

  unfoldable pub fate :
      Option (PendingAction → Bool)
      → Option (PendingAction → W → Option String × W)
      → PendingAction
      → W
      → Fate × W
  unfolding is_stale is_killed
  fate kill_check stale_check row w =
      if not (is_pending row.state)
      then (Fate.skip, w)
      else if is_killed kill_check row
      then (Fate.killed, w)
      else is_stale stale_check row w

  abbrev pub note : List AuditRecord → ClaimResult W → ClaimResult W
  note rs c = record c { records = rs ++ c.records }

  module _ (audited : Bool) (now : ℕ) (kill_check : Option (PendingAction → Bool))
      (stale_check : Option (PendingAction → W → Option String × W)) where
    unfoldable pub claim_ids : List String → List (String × PendingAction) → W → ClaimResult W
    claim_ids [] rows w = record { rows = rows; claimed = none; records = []; world = w }
    claim_ids (id ∷ ids) rows w = elim (row_at rows id) [
      | none ↦ claim_ids ids rows w
      | some row ↦
          let (f, w') = fate kill_check stale_check row w in
          elim f [
            | Fate.skip ↦ claim_ids ids rows w'
            | Fate.killed ↦ claim_ids ids (set_row rows id (cancel row "kill" now)) w'
            | Fate.stale reason ↦
                let cancelled = cancel row reason now in
                note (if audited then cancellation_record cancelled reason ∷ [] else [])
                  (claim_ids ids (set_row rows id cancelled) w')
            | Fate.dispatch ↦
                let taken : PendingAction = record row {
                  state = PendingState.dispatching;
                  updated_at = now;
                } in
                record {
                  rows = set_row rows id taken;
                  claimed = some taken;
                  records = [];
                  world = w';
                }
          ]
    ]

  -- `claim_next_pending`
  unfoldable pub claim_next_pending :
      OutboxStore
      → ℕ
      → Option (PendingAction → Bool)
      → Option (PendingAction → W → Option String × W)
      → W
      → ClaimResult W
  claim_next_pending s now kill_check stale_check w =
      claim_ids s.audited now kill_check stale_check s.order s.rows w
