-- ===== src/Dispatch/Loop/Current.antt =====
-- stonefold_store/dispatch.py: what the checks of a claim have ruled out of the row that a turn runs.
use stonefold.Prelude.{
  Bool, false, not, is_some, ltb, ℕ, true, ◌≡◌, refl, Option, none, some, arith,
}
use stonefold.Models.Records.{GateResult}
use stonefold.Kill.{KillOrder, KillTarget}
use stonefold.Outbox.{PendingAction}
use stonefold.Outbox.Store.Claim.{is_killed}
use stonefold.Outbox.Store.Dispatches.{taken}
use stonefold.Outbox.Store.Checked.{claim_next_pending-IsChecked, fate-dispatch-passes}
use stonefold.Dispatch.Sweep.{lapsed}
use stonefold.Dispatch.Service.{
  Service, Running, from_pending, stale_check, guard_check, guard_reason, default_kill_check,
  check_of,
}
use stonefold.Dispatch.Loop.{claim_next}

-- the order that halts the row, where a kill store is wired
abbrev pub order_on :
    {W : Type 0} → Option (W → KillTarget → Option KillOrder) → W → PendingAction → Option KillOrder
order_on none w row = none
order_on (some matches) w row = matches w (from_pending row)

-- the time to live, where there is one, has run out
abbrev pub is_past : ℕ → Option ℕ → Bool
is_past now none = false
is_past now (some expires_at) = not (ltb now expires_at)

-- no gate is found failing by the revalidator, where one is wired
abbrev pub passes_again :
    {W : Type 0}
    → Option (PendingAction → ℕ → W → Option GateResult × W)
    → PendingAction
    → ℕ
    → W
    → Bool
passes_again none row now w = true
passes_again (some check) row now w = not (is_some (check row now w).0)

-- `row` is the claimed form of `from`, which no order halts in the world of the claim, and whose time
-- had not passed and whose volatile gates found nothing in the world `at` of its own check.
pub record IsCurrent {W : Type 0} (v : Service W) (r : Running W) (row : PendingAction)
    : Type 0 where
  pub from : PendingAction
  pub at : W
  pub is_taken : row ≡ taken from (v.wall r.world)
  pub unhalted : order_on v.kill r.world from ≡ none
  pub in_time : is_past (v.clock at) from.expires_at ≡ false
  pub guarded : passes_again v.revalidate from (v.clock at) at ≡ true

module _ {W : Type 0} (v : Service W) where
  unkilled-unhalted :
      (kill : Option (W → KillTarget → Option KillOrder)) (w : W) (row : PendingAction)
      → is_killed (default_kill_check kill w) row ≡ false
      → order_on kill w row ≡ none
  unfolding is_killed default_kill_check
  unkilled-unhalted none w row h = refl
  unkilled-unhalted (some matches) w row h = ground (arith, h)

  unlapsed-is_past : (now : ℕ) (o : Option ℕ) → lapsed now o ≡ false → is_past now o ≡ false
  unfolding lapsed
  unlapsed-is_past now none h = refl
  unlapsed-is_past now (some t) h = ground (arith, h)

  unguarded-passes :
      (check : Option (PendingAction → ℕ → W → Option GateResult × W)) (row : PendingAction)
      (now : ℕ) (w : W)
      → (guard_check check row now w).0 ≡ none
      → passes_again check row now w ≡ true
  unfolding guard_check guard_reason
  unguarded-passes none row now w h = refl
  unguarded-passes (some check) row now w h = ground (arith, h)

  fresh-in_time :
      (row : PendingAction) (w : W)
      → (stale_check v row w).0 ≡ none
      → (is_past (v.clock w) row.expires_at ≡ false)
        × (passes_again v.revalidate row (v.clock w) w ≡ true)
  unfolding stale_check
  fresh-in_time row w h = (
    unlapsed-is_past (v.clock w) row.expires_at (ground (arith, h)),
    unguarded-passes v.revalidate row (v.clock w) w (ground (arith, h)),
  )

  -- A row that the worker claims was, at its check inside the claim, halted by no order that the kill
  -- store answers with, still within its time to live, and refused by no volatile gate that was run
  -- again; and it is claimed as it then was.
  pub claim_next-IsCurrent :
      (r : Running W) (row : PendingAction)
      → (claim_next v none r).claimed ≡ some row
      → IsCurrent v r row
  unfolding claim_next check_of
  claim_next-IsCurrent r row h =
      let check = default_kill_check v.kill r.world in
      let c =
        claim_next_pending-IsChecked r.store (v.wall r.world) check (some (stale_check v)) r.world
          row h in
      let (unkilled, fresh) = fate-dispatch-passes check (stale_check v) c.from c.at c.passed in
      let (in_time, guarded) = fresh-in_time c.from c.at fresh in
      record {
        from = c.from;
        at = c.at;
        is_taken = c.is_taken;
        unhalted = unkilled-unhalted v.kill r.world c.from unkilled;
        in_time = in_time;
        guarded = guarded;
      }
