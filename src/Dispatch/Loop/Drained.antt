-- ===== src/Dispatch/Loop/Drained.antt =====
-- stonefold_store/dispatch.py: what a drain has done when it returns.
use stonefold.Prelude.{
  ℕ, zero, suc, ◌+◌, ◌≤◌, ◌≡◌, refl, ◌∙◌, ap, Bool, true, false, Option-cases, inl, inr, ◌⊎◌,
  Option, none, some, List, [], length, arith, if◌then◌else◌,
}
use mathlib.Core.Path.{subst}
use stonefold.Models.Records.{ResolvedAction, AuditRecord}
use stonefold.Failure.{Call, ok, raised}
use stonefold.Outbox.{PendingAction, is_pending}
use stonefold.Outbox.Store.{StoreResult, stored, store_error, settle, written, list_by_state}
use stonefold.Outbox.Store.Idle.{claim-leaves_no_pending}
use stonefold.Dispatch.{Settlement}
use stonefold.Dispatch.Claimed.{run_claimed}
use stonefold.Dispatch.Loop.Recorded.{IsRecorded, worth, run_once-Adds}
use stonefold.Dispatch.Loop.{
  stage_compensation, after_settle, settle_claimed, run_if_claimed, claim_next, claim_and_run,
  swept, after_sweep, run_once, one_more, go_on, drain,
}
use stonefold.Dispatch.Service.{Service, Running, Turn, check_of, stale_check, release_terminal}

-- the turn returned False
abbrev found_nothing : Option Bool → Bool
found_nothing none = false
found_nothing (some true) = false
found_nothing (some false) = true

module _ {W : Type 0} (v : Service W) where
  stage_compensation-works :
      (row : PendingAction) (c : Call (Option ResolvedAction)) (r : Running W)
      → found_nothing (stage_compensation v row c r).value ≡ false
  unfolding stage_compensation
  stage_compensation-works row raised r = refl
  stage_compensation-works row (ok none) r = refl
  stage_compensation-works row (ok (some a)) r = refl

  after_settle-works :
      (row : PendingAction) (t : Settlement W) (rs : List AuditRecord) (x : StoreResult)
      (r : Running W)
      → found_nothing (after_settle v row t rs x r).value ≡ false
  unfolding after_settle
  after_settle-works row t rs (store_error e) r = refl
  after_settle-works row t rs (stored s q) r = stage_compensation-works row t.compensation _

  settle_claimed-works :
      (row : PendingAction) (r : Running W) → found_nothing (settle_claimed v row r).value ≡ false
  unfolding settle_claimed
  settle_claimed-works row r =
      let t = run_claimed v.worker row r.world in
      after_settle-works row t (written r.store (some t.audit))
        (settle r.store row.id t.state t.reason (v.wall t.world)) r

  run_if_claimed-rests :
      (o : Option PendingAction) (r : Running W)
      → (run_if_claimed v o r).value ≡ some false
      → (o ≡ none) × ((run_if_claimed v o r).state.store ≡ r.store)
  unfolding run_if_claimed
  run_if_claimed-rests none r h = (refl, refl)
  run_if_claimed-rests (some row) r h = absurd (ground (arith, h, settle_claimed-works row r))

  module _ (kill_check : Option (PendingAction → Bool)) where
    claim_and_run-rests :
        (r : Running W)
        → (claim_and_run v kill_check r).value ≡ some false
        → list_by_state (claim_and_run v kill_check r).state.store is_pending ≡ []
    unfolding claim_and_run claim_next
    claim_and_run-rests r h =
        let (idle, same) = run_if_claimed-rests (claim_next v kill_check r).claimed _ h in
        ap (λ s. list_by_state s is_pending) same
        ∙ claim-leaves_no_pending r.store (v.wall r.world) (check_of v kill_check r.world)
            (some (stale_check v)) r.world idle

    run_once-rests :
        (r : Running W)
        → (run_once v kill_check r).value ≡ some false
        → list_by_state (run_once v kill_check r).state.store is_pending ≡ []
    unfolding run_once after_sweep release_terminal
    run_once-rests r h = elim (Option-cases (swept v r).error) [
      | inl e ↦ rw (run_once, e) (claim_and_run-rests _ (rw (run_once, e) at h))
      | inr (x, e) ↦ absurd (ground (arith, e, h))
    ]

-- `r'` is what a drain of at most `limit` rows should leave of `r` when it returns `n`: `finished` is
-- whether it met the limit or no row is pending, and `recorded` counts what a sink was given.
pub record IsDrained {W : Type 0} (limit n : ℕ) (r r' : Running W) : Type 0 where
  pub in_limit : n ≤ limit
  pub finished : (n ≡ limit) ⊎ (list_by_state r'.store is_pending ≡ [])
  pub recorded : length r.records + (if r.store.audited then n else 0) ≤ length r'.records

Turn-cases : (o : Option Bool) → (o ≡ none) ⊎ ((o ≡ some true) ⊎ (o ≡ some false))
Turn-cases none = inl refl
Turn-cases (some true) = inr (inl refl)
Turn-cases (some false) = inr (inr refl)

data Counted (n : ℕ) (o : Option ℕ) : Type 0 where
  counted : (m : ℕ) → o ≡ some m → n ≡ suc m → Counted n o

one_more-Counted : (n : ℕ) (o : Option ℕ) → one_more o ≡ some n → Counted n o
unfolding one_more
one_more-Counted n none h = absurd (ground (arith, h))
one_more-Counted n (some m) h = counted m refl (ground (arith, h))

records_add :
    (b b' : Bool) (m x : ℕ) {y z : ℕ}
    → b' ≡ b
    → x + worth b (some true) ≤ y
    → y + (if b' then m else 0) ≤ z
    → x + (if b then suc m else 0) ≤ z
records_add true true m x same h k = omega (arith, h, k)
records_add true false m x same h k = absurd (ground (arith, same))
records_add false true m x same h k = absurd (ground (arith, same))
records_add false false m x same h k = omega (arith, h, k)

none_more : (n : ℕ) → some 0 ≡ some n → n ≡ 0
none_more n h = ground (arith, h)

module _ {W : Type 0} {turn : Turn W Bool} {r : Running W} (kept : IsRecorded r turn) where
  IsDrained-idle :
      (limit : ℕ)
      → turn.value ≡ some false
      → list_by_state turn.state.store is_pending ≡ []
      → IsDrained (suc limit) 0 r turn.state
  IsDrained-idle limit e idle = record {
    in_limit = omega arith;
    finished = inr idle;
    recorded = ground (arith, kept.more);
  }

  IsDrained-more :
      {r' : Running W} (limit m : ℕ)
      → turn.value ≡ some true
      → IsDrained limit m turn.state r'
      → IsDrained (suc limit) (suc m) r r'
  IsDrained-more limit m e rest = record {
    in_limit = omega (arith, rest.in_limit);
    finished = elim rest.finished [ inl full ↦ inl (ap suc full) | inr idle ↦ inr idle ];
    recorded =
        records_add r.store.audited turn.state.store.audited m (length r.records) kept.same
          (subst (λ o. length r.records + worth r.store.audited o ≤ length turn.state.records) e
            kept.more)
          rest.recorded;
  }

module _ {W : Type 0} (turn : Turn W Bool) (rest : Turn W ℕ) (r : Running W) (limit : ℕ)
    (kept : IsRecorded r turn)
    (idle : turn.value ≡ some false → list_by_state turn.state.store is_pending ≡ [])
    (later : (m : ℕ) → rest.value ≡ some m → IsDrained limit m turn.state rest.state) where
  go_on-IsDrained :
      (n : ℕ) → (go_on turn rest).value ≡ some n → IsDrained (suc limit) n r (go_on turn rest).state
  unfolding go_on
  go_on-IsDrained n h = elim (Turn-cases turn.value) [
    | inl e ↦ absurd (ground (arith, e, h))
    | inr (inl e) ↦ elim (one_more-Counted n rest.value (rw (go_on, e) at h)) [
      | counted m f same ↦ rw (go_on, e, same) (IsDrained-more kept limit m e (later m f))
    ]
    | inr (inr e) ↦
        rw (go_on, e, none_more n (rw (go_on, e) at h)) (IsDrained-idle kept limit e (idle e))
  ]

module _ {W : Type 0} (v : Service W) (kill_check : Option (PendingAction → Bool)) where
  -- A drain that returns has handled at most `limit` rows; if fewer, no row is pending; and each row
  -- that it handled left at least one record, if the store has a sink.
  pub drain-IsDrained :
      (limit : ℕ) (r : Running W) (n : ℕ)
      → (drain v kill_check limit r).value ≡ some n
      → IsDrained limit n r (drain v kill_check limit r).state
  unfolding drain
  drain-IsDrained zero r n h =
      rw (none_more n h)
        (record { in_limit = omega arith; finished = inl refl; recorded = ground arith })
  drain-IsDrained (suc limit) r n h =
      let turn = run_once v kill_check r in
      go_on-IsDrained turn (drain v kill_check limit turn.state) r limit
        (run_once-Adds v kill_check r) (run_once-rests v kill_check r)
        (drain-IsDrained limit turn.state) n h
