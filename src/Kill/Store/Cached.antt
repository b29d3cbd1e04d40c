-- ===== src/Kill/Store/Cached.antt =====
-- stonefold_store/kill_cached.py: the hot snapshot over the shared durable store.
use stonefold.Prelude.{
  ℕ, ◌≤◌, ◌≡◌, refl, String, true, false, Option, none, some, List, if◌then◌else◌, arith, nat_eq,
  not, Bool, [], ◌∷◌, ◌<◌, inl, inr, ◌⊎◌, ap,
}
use stonefold.Kill.{KillOrder}
use stonefold.Kill.Store.Standing.{Op, issue_op, lift_op, step, run}
use stonefold.Kill.Store.{KillStore, order_at, issue, lift, lift_found, active_orders}

-- `_snapshot` and `_epoch`. The epoch starts at -1, and the constructor reloads at once.
pub record CachedKillStore : Type 0 where
  pub snapshot : List KillOrder
  pub epoch : ℕ

-- `reload`; also what `__init__` leaves. The orders and the epoch are two reads of the backing store,
-- each of the store as it stands then.
unfoldable pub reload : KillStore → KillStore → CachedKillStore
reload at_orders at_epoch = record { snapshot = active_orders at_orders; epoch = at_epoch.epoch }

-- `_on_invalidation`, with the backing store at the two reads of a reload
unfoldable pub on_invalidation : CachedKillStore → KillStore → KillStore → ℕ → CachedKillStore
on_invalidation c at_orders at_epoch epoch =
    if not (nat_eq epoch c.epoch) then reload at_orders at_epoch else c

-- no write fell between the two reads of a reload
abbrev whole : List Op → Bool
whole [] = true
whole (op ∷ between) = false

-- the operation is of this instance: its write goes through, and a reload follows
abbrev through : KillStore → Op → List Op → CachedKillStore
through b op between = reload (step b op) (run (step b op) between)

-- One gateway instance beside others that write to the same backing store, also between the two
-- reads of a reload. A message of the bus may be late or dropped. The Boolean says whether the latest
-- reload was whole.
pub data Step (b : KillStore) (c : CachedKillStore) (w : Bool)
    : KillStore → CachedKillStore → Bool → Type 0 where
  here_written :
      (op : Op) (between : List Op)
      → Step b c w (run (step b op) between) (through b op between) (whole between)
  elsewhere_written : (op : Op) → Step b c w (step b op) c w
  message :
      (epoch : ℕ) (between : List Op)
      → Step b c w
          (run b between)
          (on_invalidation c b (run b between) epoch)
          (if not (nat_eq epoch c.epoch) then whole between else w)
  poll : (between : List Op) → Step b c w (run b between) (reload b (run b between)) (whole between)

pub data Reach (b : KillStore) (c : CachedKillStore) (w : Bool)
    : KillStore → CachedKillStore → Bool → Type 0 where
  here : Reach b c w b c w
  next :
      {b' b'' : KillStore} {c' c'' : CachedKillStore} {w' w'' : Bool}
      → Reach b c w b' c' w'
      → Step b' c' w' b'' c'' w''
      → Reach b c w b'' c'' w''

-- The cache is never ahead, and at the store's epoch it holds the store's active orders if its
-- latest reload was whole.
pub record IsCoherent (b : KillStore) (c : CachedKillStore) (w : Bool) : Type 0 where
  pub behind : c.epoch ≤ b.epoch
  pub fresh : w ≡ true → c.epoch ≡ b.epoch → c.snapshot ≡ active_orders b

-- A write raises the epoch, or it is the lift of an unknown order and changes nothing.
lift_found-moves :
    (b : KillStore) (id : String) (now : ℕ) (o : Option KillOrder)
    → b.epoch < (lift_found b id now o).0.epoch ⊎ (lift_found b id now o).0 ≡ b
unfolding lift_found
lift_found-moves b id now none = inr refl
lift_found-moves b id now (some o) = inl (omega arith)

step-moves : (b : KillStore) (op : Op) → b.epoch < (step b op).epoch ⊎ step b op ≡ b
unfolding step lift issue
step-moves b (issue_op id now scope by_ p) = inl (omega arith)
step-moves b (lift_op id now) = lift_found-moves b id now (order_at b.orders id)

step-IsCoherent :
    (b : KillStore) (c : CachedKillStore) (w : Bool) (op : Op)
    → IsCoherent b c w
    → IsCoherent (step b op) c w
step-IsCoherent b c w op h = elim (step-moves b op) [
  | inl e ↦
      let low = h.behind in record { behind = omega arith; fresh = λ v same. absurd (omega arith) }
  | inr e ↦ rw e h
]

epoch-run : (b : KillStore) (ops : List Op) → b.epoch ≤ (run b ops).epoch
unfolding run
epoch-run b [] = omega arith
epoch-run b (op ∷ ops) =
    let rest = epoch-run (step b op) ops in
    elim (step-moves b op) [
      | inl e ↦ omega arith
      | inr e ↦ omega (arith, ap (λ (x : KillStore). x.epoch) e, rest)
    ]

run-IsCoherent :
    (b : KillStore) (c : CachedKillStore) (w : Bool) (ops : List Op)
    → IsCoherent b c w
    → IsCoherent (run b ops) c w
unfolding run
run-IsCoherent b c w [] h = h
run-IsCoherent b c w (op ∷ ops) h = run-IsCoherent (step b op) c w ops (step-IsCoherent b c w op h)

reload-IsCoherent :
    (b : KillStore) (between : List Op)
    → IsCoherent (run b between) (reload b (run b between)) (whole between)
unfolding reload run
reload-IsCoherent b [] = record { behind = omega arith; fresh = λ v e. refl }
reload-IsCoherent b (op ∷ ops) = record {
  behind = omega arith;
  fresh = λ v e. absurd (ground arith);
}

Step-IsCoherent :
    {b b' : KillStore} {c c' : CachedKillStore} {w w' : Bool}
    → Step b c w b' c' w'
    → IsCoherent b c w
    → IsCoherent b' c' w'
unfolding on_invalidation
Step-IsCoherent {b} (here_written op between) h = reload-IsCoherent (step b op) between
Step-IsCoherent {b} {c = c} {w = w} (elsewhere_written op) h = step-IsCoherent b c w op h
Step-IsCoherent {b} {c = c} {w = w} (message epoch between) h =
    elim (nat_eq epoch c.epoch)
      as (λ t.
        IsCoherent (run b between) (if not t then reload b (run b between) else c)
          (if not t then whole between else w)) [
            | true ↦ run-IsCoherent b c w between h
            | false ↦ reload-IsCoherent b between
          ]
Step-IsCoherent {b} (poll between) h = reload-IsCoherent b between

-- From a fresh cache, after any interleaving of this instance's orders, those of other instances,
-- bus messages and polls, where writes also fall between the two reads of a reload: the epoch of the
-- cache is never ahead of the store's, and if it is the store's and no write fell between the reads
-- of the latest reload, the cache holds exactly the active orders of the store.
pub Reach-IsCoherent :
    {b b' : KillStore} {c' : CachedKillStore} {w' : Bool}
    → Reach b (reload b b) true b' c' w'
    → IsCoherent b' c' w'
unfolding run
Reach-IsCoherent {b} here = reload-IsCoherent b []
Reach-IsCoherent (next r st) = Step-IsCoherent st (Reach-IsCoherent r)
