-- ===== src/Kill/Store/Standing.antt =====
-- An order halts what its scope matches from its issue until it is lifted.
use stonefold.Prelude.{
  contains-append, ◌≡◌, refl, ap, ◌∙◌, ℕ, String, Bool, true, false, Option, none, some, List, [],
  ◌∷◌, if◌then◌else◌, str_eq, eq_iff, contains, is_some, All, arith, Bool-cases, inl, inr,
}
use stonefold.Failure.{Call}
use stonefold.Kill.{
  KillScope, KillOrder, KillTarget, active, order_matches, predicate_matches, scope_matches,
}
use stonefold.Kill.Store.{
  KillStore, order_at, set_order, issue, lift, lift_found, add_active, active_of, active_orders,
  first_match, matches,
}

order_at-set_order :
    (orders : List (String × KillOrder)) (id j : String) (o : KillOrder)
    → order_at (set_order orders id o) j ≡ (if str_eq id j then some o else order_at orders j)
unfolding order_at set_order
order_at-set_order [] id j o = refl
order_at-set_order ((i, p) ∷ rest) id j o =
    ground (arith, eq_iff i id, eq_iff i j, eq_iff id j, order_at-set_order rest id j o)

-- The store has the order under its id.
pub record Stands (s : KillStore) (id : String) (o : KillOrder) : Type 0 where
  pub listed : contains s.order_ids id ≡ true
  pub stored : order_at s.orders id ≡ some o

-- What operators do to the store, each with the instant and, for an issue, the new id.
pub data Op : Type 0 where
  issue_op : String → ℕ → KillScope → String → Option String → Op
  lift_op : String → ℕ → Op

abbrev pub op_id : Op → String
op_id (issue_op id now scope by_ p) = id
op_id (lift_op id now) = id

unfoldable pub step : KillStore → Op → KillStore
step s (issue_op id now scope by_ p) = (issue s id now scope by_ p).0
step s (lift_op id now) = (lift s id now).0

unfoldable pub run : KillStore → List Op → KillStore
run s [] = s
run s (op ∷ ops) = run (step s op) ops

module _ (id : String) (o : KillOrder) where
  issue-Stands :
      (s : KillStore) (j : String) (now : ℕ) (scope : KillScope) (by_ : String) (p : Option String)
      → str_eq j id ≡ false
      → Stands s id o
      → Stands (issue s j now scope by_ p).0 id o
  unfolding issue
  issue-Stands s j now scope by_ p other h = record {
    listed = ground (arith, contains-append s.order_ids j id, h.listed);
    stored = rw (order_at-set_order s.orders j id _, other) h.stored;
  }

  lift_found-Stands :
      (s : KillStore) (j : String) (now : ℕ) (found : Option KillOrder)
      → str_eq j id ≡ false
      → Stands s id o
      → Stands (lift_found s j now found).0 id o
  unfolding lift_found
  lift_found-Stands s j now none other h = h
  lift_found-Stands s j now (some q) other h = record {
    listed = h.listed;
    stored = rw (order_at-set_order s.orders j id _, other) h.stored;
  }

  step-Stands :
      (s : KillStore) (op : Op)
      → str_eq (op_id op) id ≡ false
      → Stands s id o
      → Stands (step s op) id o
  unfolding step lift
  step-Stands s (issue_op j now scope by_ p) other h = issue-Stands s j now scope by_ p other h
  step-Stands s (lift_op j now) other h = lift_found-Stands s j now (order_at s.orders j) other h

  run-Stands :
      (s : KillStore) (ops : List Op)
      → All (λ op. str_eq (op_id op) id ≡ false) ops
      → Stands s id o
      → Stands (run s ops) id o
  unfolding run
  run-Stands s [] others h = h
  run-Stands s (op ∷ ops) (other, others) h =
      run-Stands (step s op) ops others (step-Stands s op other h)

module _ (holds : String → KillTarget → Call Bool) (t : KillTarget) where
  first_match-add_active :
      (q : Option KillOrder) (os : List KillOrder)
      → is_some (first_match holds os t) ≡ true
      → is_some (first_match holds (add_active q os) t) ≡ true
  unfolding first_match add_active
  first_match-add_active none os h = h
  first_match-add_active (some q) os h = elim (Bool-cases (active q)) [
    | inr e ↦ rw e h
    | inl e ↦ elim (Bool-cases (order_matches holds q t)) [
      | inl f ↦ rw (e, f) refl
      | inr f ↦ rw (e, f) h
    ]
  ]

  first_match-found :
      (o : KillOrder) (os : List KillOrder)
      → active o ≡ true
      → order_matches holds o t ≡ true
      → is_some (first_match holds (add_active (some o) os) t) ≡ true
  unfolding first_match add_active
  first_match-found o os on fits = rw (on, fits) refl

  halted_by :
      (orders : List (String × KillOrder)) (ids : List String) (id : String) (o : KillOrder)
      → order_at orders id ≡ some o
      → contains ids id ≡ true
      → active o ≡ true
      → order_matches holds o t ≡ true
      → is_some (first_match holds (active_of orders ids) t) ≡ true
  unfolding active_of
  halted_by orders [] id o at listed on fits = absurd (ground arith)
  halted_by orders (i ∷ ids) id o at listed on fits = elim (Bool-cases (str_eq i id)) [
    | inl e ↦
        rw (ap (order_at orders) ((eq_iff i id).0 e) ∙ at)
          (first_match-found o (active_of orders ids) on fits)
    | inr e ↦
        first_match-add_active (order_at orders i) (active_of orders ids)
          (halted_by orders ids id o at (ground arith) on fits)
  ]

-- The order that an issue makes, and that it stands in the store.
abbrev issued : KillStore → String → ℕ → KillScope → String → KillOrder
issued s id now scope by_ = (issue s id now scope by_ none).1

issue-Stands-itself :
    (s : KillStore) (id : String) (now : ℕ) (scope : KillScope) (by_ : String)
    → Stands (issue s id now scope by_ none).0 id (issued s id now scope by_)
unfolding issue
issue-Stands-itself s id now scope by_ = record {
  listed = ground (arith, contains-append s.order_ids id id, (eq_iff id id).1 refl);
  stored = rw (order_at-set_order s.orders id id _, (eq_iff id id).1 refl) refl;
}

issued-matches :
    (holds : String → KillTarget → Call Bool) (s : KillStore) (id : String) (now : ℕ)
    (scope : KillScope) (by_ : String) (t : KillTarget)
    → scope_matches scope t ≡ true
    → order_matches holds (issued s id now scope by_) t ≡ true
unfolding issue order_matches predicate_matches
issued-matches holds s id now scope by_ t fits = rw fits refl

issued-active :
    (s : KillStore) (id : String) (now : ℕ) (scope : KillScope) (by_ : String)
    → active (issued s id now scope by_) ≡ true
unfolding issue
issued-active s id now scope by_ = refl

-- From the issue of an order without a predicate, and through any run of issues and lifts of other
-- orders, every target that its scope matches is halted by some order.
pub issued-halts :
    (holds : String → KillTarget → Call Bool) (s : KillStore) (id : String) (now : ℕ)
    (scope : KillScope) (by_ : String) (t : KillTarget) (ops : List Op)
    → scope_matches scope t ≡ true
    → All (λ op. str_eq (op_id op) id ≡ false) ops
    → is_some (matches holds (run (issue s id now scope by_ none).0 ops) t) ≡ true
unfolding matches active_orders
issued-halts holds s id now scope by_ t ops fits others =
    let s' = run (issue s id now scope by_ none).0 ops in
    let o = issued s id now scope by_ in
    let h =
      run-Stands id o (issue s id now scope by_ none).0 ops others
        (issue-Stands-itself s id now scope by_) in
    halted_by holds t s'.orders s'.order_ids id o h.stored h.listed
      (issued-active s id now scope by_) (issued-matches holds s id now scope by_ t fits)
