-- ===== src/Dispatch/Service.antt =====
-- stonefold_store/dispatch.py: the worker with what it is built with and what it remembers, the checks
-- that it hands to a claim, and the release of the claims that rows leave behind. An instant is read
-- off the world, which each call to the outside moves on. The freshness check is taken to return.
use stonefold.Prelude.{
  ℕ, ◌+◌, String, Bool, true, false, Option, none, some, List, [], ◌∷◌, if◌then◌else◌, ◌+s◌,
  contains, is_some,
}
use stonefold.Models.Records.{Session, GateResult, AuditRecord, ObligationClaim}
use stonefold.Kill.{KillOrder, KillTarget, target_of}
use stonefold.Outbox.{PendingState, PendingAction}
use stonefold.Outbox.Store.{OutboxStore, list_by_state}
use stonefold.Dispatch.{Worker}
use stonefold.Dispatch.Sweep.{lapsed}

-- What the worker is built with: `KillStore.matches`, its clock and the store's, the revalidator,
-- and the ticket and the key that uuid4 gives to a row.
pub record Service (W : Type 0) : Type 0 where
  pub worker : Worker W
  pub kill : Option (W → KillTarget → Option KillOrder)
  pub clock : W → ℕ
  pub wall : W → ℕ
  pub revalidate : Option (PendingAction → ℕ → W → Option GateResult × W)
  pub fresh : W → (String × String) × W

-- The store with what its audit sink was given, and `_released`, the last row first.
pub record Running (W : Type 0) : Type 0 where
  pub store : OutboxStore
  pub records : List AuditRecord
  pub released : List String
  pub world : W

-- A call that returns a value or raises; what it did stands in either case.
pub record Turn (W A : Type 0) : Type 0 where
  pub value : Option A
  pub state : Running W

abbrev pub is_cancelled : PendingState → Bool
is_cancelled PendingState.cancelled = true
is_cancelled _ = false

abbrev pub is_failed : PendingState → Bool
is_failed PendingState.failed = true
is_failed _ = false

-- the claims released so far, their number and the world
pub record Freed (W : Type 0) : Type 0 where
  pub released : List String
  pub count : ℕ
  pub world : W

-- `KillTarget.from_pending`
unfoldable pub from_pending : PendingAction → KillTarget
from_pending row =
    let session : Session = record { id = row.session_id; correlation_id = none } in
    target_of row.resolved row.actor session row.agent

stale_guard_reason : String → String
stale_guard_reason gate = "stale-guard:" +s gate

unfoldable pub guard_reason : Option GateResult → Option String
unfolding stale_guard_reason
guard_reason none = none
guard_reason (some failing) = some (stale_guard_reason failing.gate)

module _ {W : Type 0} where
  unfoldable pub guard_check :
      Option (PendingAction → ℕ → W → Option GateResult × W)
      → PendingAction
      → ℕ
      → W
      → Option String × W
  unfolding guard_reason
  guard_check none row now w = (none, w)
  guard_check (some check) row now w =
      let (failing, w') = check row now w in (guard_reason failing, w')

  -- `_stale_check`
  unfoldable pub stale_check : Service W → PendingAction → W → Option String × W
  unfolding guard_check
  stale_check v row w =
      let now = v.clock w in
      if lapsed now row.expires_at
      then (some "stale-decision", w)
      else guard_check v.revalidate row now w

  -- `_default_kill_check`, where a kill store is wired
  unfoldable pub default_kill_check :
      Option (W → KillTarget → Option KillOrder) → W → Option (PendingAction → Bool)
  default_kill_check none w = none
  default_kill_check (some matches) w = some (λ row. is_some (matches w (from_pending row)))

  unfoldable pub check_of :
      Service W → Option (PendingAction → Bool) → W → Option (PendingAction → Bool)
  unfolding default_kill_check
  check_of v none w = default_kill_check v.kill w
  check_of v (some given) w = some given

  -- an adapter that is missing or raises leaves the claim to its own time limit
  unfoldable pub release_claim : Worker W → ObligationClaim → W → W
  release_claim d claim w = elim (d.obligations claim.registry) [
    | none ↦ w
    | some adapter ↦ (adapter.release claim.ref claim.intent_id w).1
  ]

  unfoldable pub release_rows : Worker W → List PendingAction → List String → W → Freed W
  release_rows d [] done w = record { released = done; count = 0; world = w }
  release_rows d (row ∷ rows) done w =
      let passed = release_rows d rows done w in
      elim row.obligation [
        | none ↦ passed
        | some claim ↦
            let rest = release_rows d rows (row.id ∷ done) (release_claim d claim w) in
            if contains done row.id then passed else record rest { count = rest.count + 1 }
      ]

  -- `release_terminal_claims`: the cancelled rows, then the failed ones
  unfoldable pub release_terminal_claims : Worker W → OutboxStore → List String → W → Freed W
  release_terminal_claims d s done w =
      let first = release_rows d (list_by_state s is_cancelled) done w in
      let second = release_rows d (list_by_state s is_failed) first.released first.world in
      record second { count = first.count + second.count }

  unfoldable pub release_terminal : Worker W → Running W → Running W
  release_terminal d r =
      let freed = release_terminal_claims d r.store r.released r.world in
      record r { released = freed.released; world = freed.world }
