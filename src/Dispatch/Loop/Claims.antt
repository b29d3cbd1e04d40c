-- ===== src/Dispatch/Loop/Claims.antt =====
-- stonefold_store/dispatch.py: a turn of the worker strands no claim of a row that came to nothing.
use stonefold.Prelude.{
  ◌≡◌, refl, sym, String, Bool, false, Option-cases, inl, inr, Option, none, some, List, [], ◌∷◌,
  contains, All, ◌⊎◌,
}
use mathlib.Core.Path.{subst}
use mathlib.Core.List.{Mem, mem-cons_self, mem-cons_of_mem}
use stonefold.Models.Records.{ResolvedAction, AuditRecord, ObligationClaim}
use stonefold.Failure.{Call, ok, raised}
use stonefold.Outbox.{PendingAction}
use stonefold.Outbox.Store.{
  OutboxStore, StoreResult, stored, store_error, settle, written, list_by_state,
}
use stonefold.Outbox.Store.Listed.{IsDistinct}
use stonefold.Pipeline.{Adapter}
use stonefold.Dispatch.{Worker, Settlement}
use stonefold.Dispatch.Claimed.{run_claimed}
use stonefold.Dispatch.Loop.{
  stage_compensation, after_settle, settle_claimed, run_if_claimed, claim_and_run, swept,
  swept_state, after_sweep, run_once,
}
use stonefold.Dispatch.Service.{
  Service, Running, is_cancelled, is_failed, release_claim, release_rows, release_terminal_claims,
  release_terminal,
}
use stonefold.Dispatch.Loop.Owed.{
  AreFree, settled, owed, owed-cases, left, end_of, left-settled, left-owed, world-settled,
  world-owed, left-AreFree, left-IsDistinct, left-more,
}

-- The releases that lead from one world and memory to another, in turn: each is the claim of a row
-- of which P holds and which was not remembered; its adapter, where one is wired, was asked to
-- release the claim's line for the claim's intent, and the row is remembered.
pub data Releases {W : Type 0} (d : Worker W) (P : PendingAction → Type 0)
    : W → List String → W → List String → Type 0 where
  done_with : {w : W} {done : List String} → Releases d P w done w done
  release_by :
      {w w' : W} {done done' : List String} {adapter : Adapter W} (row : PendingAction)
      (claim : ObligationClaim)
      → P row
      → row.obligation ≡ some claim
      → contains done row.id ≡ false
      → d.obligations claim.registry ≡ some adapter
      → Releases d P (adapter.release claim.ref claim.intent_id w).1 (row.id ∷ done) w' done'
      → Releases d P w done w' done'
  release_unwired :
      {w w' : W} {done done' : List String} (row : PendingAction) (claim : ObligationClaim)
      → P row
      → row.obligation ≡ some claim
      → contains done row.id ≡ false
      → d.obligations claim.registry ≡ none
      → Releases d P w (row.id ∷ done) w' done'
      → Releases d P w done w' done'

module _ {W : Type 0} (d : Worker W) {P : PendingAction → Type 0} where
  Releases-then :
      {w w1 w2 : W} {done done1 done2 : List String}
      → Releases d P w done w1 done1
      → Releases d P w1 done1 w2 done2
      → Releases d P w done w2 done2
  Releases-then done_with more = more
  Releases-then (release_by row claim p o c a rest) more =
      release_by row claim p o c a (Releases-then rest more)
  Releases-then (release_unwired row claim p o c a rest) more =
      release_unwired row claim p o c a (Releases-then rest more)

  release_claim-Releases :
      {w w' : W} {done done' : List String} (row : PendingAction) (claim : ObligationClaim)
      → P row
      → row.obligation ≡ some claim
      → contains done row.id ≡ false
      → Releases d P (release_claim d claim w) (row.id ∷ done) w' done'
      → Releases d P w done w' done'
  unfolding release_claim
  release_claim-Releases {w} {w'} {done} {done'} row claim p o c rest =
      elim (Option-cases (d.obligations claim.registry)) [
        | inl e ↦ release_unwired row claim p o c e (rw (release_claim, e) at rest)
        | inr (adapter, e) ↦ release_by row claim p o c e (rw (release_claim, e) at rest)
      ]

  release_rows-Releases :
      (rows : List PendingAction) (done : List String) (w : W)
      → All P rows
      → Releases d P w done (end_of d rows done w) (left d rows done w)
  unfolding release_rows
  release_rows-Releases [] done w h = done_with
  release_rows-Releases (row ∷ rows) done w (p, h) = elim (owed-cases done row) [
    | settled free ↦
        rw (left-settled d row rows done w free, world-settled d row rows done w free)
          (release_rows-Releases rows done w h)
    | owed claim e c ↦
        let w' = release_claim d claim w in
        rw (left-owed d row rows done w claim e c, world-owed d row rows done w claim e c)
          (release_claim-Releases row claim p e c (release_rows-Releases rows (row.id ∷ done) w' h))
  ]

-- No claim is left on a cancelled or failed row, and none was released twice.
pub record StrandsNone {W : Type 0} (r : Running W) : Type 0 where
  pub cancelled_free : AreFree r.released (list_by_state r.store is_cancelled)
  pub failed_free : AreFree r.released (list_by_state r.store is_failed)
  pub once : IsDistinct r.released

-- the row is cancelled or failed in the store
abbrev pub IsTerminal : OutboxStore → PendingAction → Type 0
IsTerminal s row = Mem row (list_by_state s is_cancelled) ⊎ Mem row (list_by_state s is_failed)

-- What leads from one state of the worker to a later one are the releases of the claims of rows that
-- are cancelled or failed in the earlier one's store.
abbrev pub IsReleaseRun : {W : Type 0} → Worker W → Running W → Running W → Type 0
IsReleaseRun d r r' = Releases d (IsTerminal r.store) r.world r.released r'.world r'.released

each_mem :
    (P : PendingAction → Type 0) (rows : List PendingAction)
    → ((row : PendingAction) → Mem row rows → P row)
    → All P rows
each_mem P [] h = tt
each_mem P (row ∷ rows) h =
    (h row mem-cons_self, each_mem P rows (λ q m. h q (mem-cons_of_mem row m)))

module _ {W : Type 0} where
  release_terminal-StrandsNone :
      (d : Worker W) (r : Running W) → IsDistinct r.released → StrandsNone (release_terminal d r)
  unfolding release_terminal release_terminal_claims
  release_terminal-StrandsNone d r h =
      let cancelled = list_by_state r.store is_cancelled in
      let failed = list_by_state r.store is_failed in
      let first = release_rows d cancelled r.released r.world in
      record {
        cancelled_free =
            left-more d failed first.released first.world cancelled
              (left-AreFree d cancelled r.released r.world);
        failed_free = left-AreFree d failed first.released first.world;
        once =
            left-IsDistinct d failed first.released first.world
              (left-IsDistinct d cancelled r.released r.world h);
      }

  release_terminal-IsReleaseRun :
      (d : Worker W) (r : Running W) → IsReleaseRun d r (release_terminal d r)
  unfolding release_terminal release_terminal_claims
  release_terminal-IsReleaseRun d r =
      let cancelled = list_by_state r.store is_cancelled in
      let failed = list_by_state r.store is_failed in
      let first = release_rows d cancelled r.released r.world in
      Releases-then d
        (release_rows-Releases d cancelled r.released r.world
          (each_mem (IsTerminal r.store) cancelled (λ row m. inl m)))
        (release_rows-Releases d failed first.released first.world
          (each_mem (IsTerminal r.store) failed (λ row m. inr m)))

  stage_compensation-released :
      (v : Service W) (row : PendingAction) (c : Call (Option ResolvedAction)) (r : Running W)
      → (stage_compensation v row c r).state.released ≡ r.released
  unfolding stage_compensation
  stage_compensation-released v row raised r = refl
  stage_compensation-released v row (ok none) r = refl
  stage_compensation-released v row (ok (some a)) r = refl

  after_settle-released :
      (v : Service W) (row : PendingAction) (t : Settlement W) (rs : List AuditRecord)
      (x : StoreResult) (r : Running W)
      → (after_settle v row t rs x r).state.released ≡ r.released
  unfolding after_settle
  after_settle-released v row t rs (store_error e) r = refl
  after_settle-released v row t rs (stored s q) r =
      stage_compensation-released v row t.compensation _

  run_if_claimed-released :
      (v : Service W) (o : Option PendingAction) (r : Running W)
      → (run_if_claimed v o r).state.released ≡ r.released
  unfolding run_if_claimed settle_claimed
  run_if_claimed-released v none r = refl
  run_if_claimed-released v (some row) r =
      let t = run_claimed v.worker row r.world in
      after_settle-released v row t (written r.store (some t.audit))
        (settle r.store row.id t.state t.reason (v.wall t.world)) r

  module _ (v : Service W) (kill_check : Option (PendingAction → Bool)) where
    after_sweep-StrandsNone :
        (r : Running W) → IsDistinct r.released → StrandsNone (after_sweep v kill_check r).state
    unfolding after_sweep claim_and_run
    after_sweep-StrandsNone r h =
        let first = release_terminal v.worker r in
        let turn = claim_and_run v kill_check first in
        let same : turn.state.released ≡ first.released = run_if_claimed-released v _ _ in
        release_terminal-StrandsNone v.worker turn.state
          (subst IsDistinct (sym same) (release_terminal-StrandsNone v.worker r h).once)

    -- After a turn of the worker whose sweep reached its end, whether the turn then returned or
    -- raised, no claim is left on a row that is cancelled or failed, the rows that the turn itself
    -- cancelled included, and no row's claim was released twice, if none was before. Each claim that
    -- the turn released belongs to a cancelled or failed row, and its adapter, where one is wired, was
    -- asked to release its line for its intent: once over, before the turn claimed a row, and for what
    -- was left when it had settled that row.
    pub run_once-StrandsNone :
        (r : Running W)
        → IsDistinct r.released
        → (swept v r).error ≡ none
        → let first = release_terminal v.worker (swept_state v r) in
          let last = (run_once v kill_check r).state in
          StrandsNone last
          × IsReleaseRun v.worker (swept_state v r) first
          × IsReleaseRun v.worker (claim_and_run v kill_check first).state last
    unfolding run_once after_sweep
    run_once-StrandsNone r h completes =
        let first = release_terminal v.worker (swept_state v r) in
        let turn = claim_and_run v kill_check first in
        (
          rw (run_once, completes) (after_sweep-StrandsNone (swept_state v r) h),
          release_terminal-IsReleaseRun v.worker (swept_state v r),
          rw (run_once, completes) (release_terminal-IsReleaseRun v.worker turn.state),
        )
