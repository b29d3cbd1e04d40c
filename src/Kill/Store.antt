-- ===== src/Kill/Store.antt =====
-- stonefold_store/kill_memory.py: the store of kill orders. Ids and instants, which uuid4 and the
-- clock give, are arguments.
pub mod Standing
pub mod Cached
use stonefold.Prelude.{
  ℕ, ◌+◌, String, Bool, true, false, Option, none, some, List, [], ◌∷◌, ◌++◌, if◌then◌else◌, str_eq,
}
use stonefold.Failure.{Call}
use stonefold.Kill.{KillScope, KillOrder, KillTarget, active, order_matches}

-- `_orders` by id, `_order_ids` in issue order
pub record KillStore : Type 0 where
  pub orders : List (String × KillOrder)
  pub order_ids : List String
  pub epoch : ℕ

abbrev pub no_orders : KillStore
no_orders = record { orders = []; order_ids = []; epoch = 0 }

unfoldable pub order_at : List (String × KillOrder) → String → Option KillOrder
order_at [] id = none
order_at ((i, o) ∷ rest) id = let later = order_at rest id in if str_eq i id then some o else later

unfoldable pub set_order :
    List (String × KillOrder) → String → KillOrder → List (String × KillOrder)
set_order [] id o = (id, o) ∷ []
set_order ((i, p) ∷ rest) id o =
    let later = set_order rest id o in if str_eq i id then (i, o) ∷ rest else (i, p) ∷ later

unfoldable pub issue :
    KillStore → String → ℕ → KillScope → String → Option String → KillStore × KillOrder
issue s id now scope issued_by predicate =
    let e = s.epoch + 1 in
    let order : KillOrder = record {
      id = id;
      scope = scope;
      predicate = predicate;
      issued_by = issued_by;
      issued_at = now;
      lifted_at = none;
      epoch = e;
    } in
    (
      record {
        orders = set_order s.orders id order;
        order_ids = s.order_ids ++ id ∷ [];
        epoch = e;
      },
      order,
    )

lift_found : KillStore → String → ℕ → Option KillOrder → KillStore × Option KillOrder
lift_found s id now none = (s, none)
lift_found s id now (some order) =
    let e = s.epoch + 1 in
    let lifted : KillOrder = record order { lifted_at = some now; epoch = e } in
    (record s { orders = set_order s.orders id lifted; epoch = e }, some lifted)

-- `none` is the KeyError of an unknown id, which leaves the store as it was
unfoldable pub lift : KillStore → String → ℕ → KillStore × Option KillOrder
unfolding lift_found
lift s id now = lift_found s id now (order_at s.orders id)

add_active : Option KillOrder → List KillOrder → List KillOrder
add_active none rest = rest
add_active (some o) rest = if active o then o ∷ rest else rest

-- Every id of `order_ids` has an order (Laws), so no lookup fails.
unfoldable pub active_of : List (String × KillOrder) → List String → List KillOrder
unfolding add_active
active_of orders [] = []
active_of orders (id ∷ ids) = add_active (order_at orders id) (active_of orders ids)

unfoldable pub active_orders : KillStore → List KillOrder
active_orders s = active_of s.orders s.order_ids

module _ (holds : String → KillTarget → Call Bool) where
  -- the first order of a snapshot that halts the target
  unfoldable pub first_match : List KillOrder → KillTarget → Option KillOrder
  first_match [] t = none
  first_match (o ∷ os) t =
      let rest = first_match os t in if order_matches holds o t then some o else rest

  unfoldable pub matches : KillStore → KillTarget → Option KillOrder
  matches s t = first_match (active_orders s) t
