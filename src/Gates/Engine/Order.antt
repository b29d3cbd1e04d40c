-- ===== src/Gates/Engine/Order.antt =====
-- The order in which the gates of an action run.
use mathlib.Core.List.{Mem, Perm, Pairwise, Pairwise-singleton, forall_mem-cons}
use mathlib.Core.List.Perm
use native.Mathlib.Bridge.{le_prop}
use native.Mathlib.Nat.{le_trans}
use stonefold.Prelude.{
  ℕ, ◌≤◌, ◌≡◌, refl, String, List, [], ◌∷◌, keep, leb, nat_eq, arith, Bool-cases, inl, inr, Option,
  none, some, Option-cases, sym, ap, ◌∙◌, ◌++◌, if◌then◌else◌, str_eq,
}
use mathlib.Core.Path.{subst}
use stonefold.Models.Enums.{Kind, kind_eq}
use stonefold.Values.{Value, field, empty}
use stonefold.Models.Records.{ResolvedAction}
use stonefold.Gates.{GatePy, GateContext}
use stonefold.Gates.Engine.{
  Item, insert, sort, with_guard, known_items, items_of, texts, has_any, guard_item, Gate,
  find_gate, gate_table,
}

abbrev pub Cheaper : Item → Item → Type 0
Cheaper x y = x.cost ≤ y.cost

abbrev pub ByCost : List Item → Type 0
ByCost = Pairwise Cheaper

-- the gates of one cost
abbrev pub costing : ℕ → List Item → List Item
costing c = keep (λ i. nat_eq i.cost c)

insert-perm : (x : Item) (l : List Item) → Perm (insert x l) (x ∷ l)
unfolding insert
insert-perm x [] = Perm.rfl
insert-perm x (y ∷ ys) = elim (Bool-cases (leb x.cost y.cost)) [
  | inl e ↦ rw (insert, e) Perm.rfl
  | inr e ↦ rw (insert, e) (Perm.trans (Perm.cons y (insert-perm x ys)) (Perm.swap x y ys))
]

sort-perm : (l : List Item) → Perm (sort l) l
unfolding sort
sort-perm [] = Perm.rfl
sort-perm (x ∷ xs) = Perm.trans (insert-perm x (sort xs)) (Perm.cons x (sort-perm xs))

costing-insert : (c : ℕ) (x : Item) (l : List Item) → costing c (insert x l) ≡ costing c (x ∷ l)
unfolding insert
costing-insert c x [] = refl
costing-insert c x (y ∷ ys) = ground (arith, costing-insert c x ys)

costing-sort : (c : ℕ) (l : List Item) → costing c (sort l) ≡ costing c l
unfolding sort
costing-sort c [] = refl
costing-sort c (x ∷ xs) = ground (arith, costing-insert c x (sort xs), costing-sort c xs)

above-cons :
    (x : Item) {y : Item} {l : List Item}
    → x.cost ≤ y.cost
    → ((z : Item) → Mem z l → Cheaper x z)
    → (z : Item) → Mem z (y ∷ l)
    → Cheaper x z
above-cons x p h = (forall_mem-cons (λ z. le_prop)).1 (p, h)

insert-ByCost : (x : Item) {l : List Item} → ByCost l → ByCost (insert x l)
unfolding insert
insert-ByCost x Pairwise.nil = Pairwise-singleton _ x
insert-ByCost x (Pairwise.cons {a = y} {l = ys} below s) = elim (Bool-cases (leb x.cost y.cost)) [
  | inl e ↦
      let le : x.cost ≤ y.cost = ground (arith, e) in
      rw (insert, e)
        (Pairwise.cons (above-cons x le λ z m. le_trans le (below z m)) (Pairwise.cons below s))
  | inr e ↦
      let le : y.cost ≤ x.cost = ground (arith, e) in
      rw (insert, e)
        (Pairwise.cons (λ z m. above-cons y le below z ((Perm.mem_iff (insert-perm x ys)).0 m))
          (insert-ByCost x s))
]

sort-ByCost : (l : List Item) → ByCost (sort l)
unfolding sort
sort-ByCost [] = Pairwise.nil
sort-ByCost (x ∷ xs) = insert-ByCost x (sort-ByCost xs)

-- What each gate costs.
abbrev pub gate_costs : List (String × ℕ)
gate_costs =
    ("valueLimit", 10)
    ∷ ("requireExplanation", 10)
    ∷ ("window", 10)
    ∷ ("allowlist", 15)
    ∷ ("denylist", 15)
    ∷ ("precondition", 20)
    ∷ ("emissionControl", 20)
    ∷ ("requireMatch", 20)
    ∷ ("disclosure", 20)
    ∷ ("rate", 30)
    ∷ ("quota", 30)
    ∷ ("quantityCap", 30)
    ∷ ("spendLimit", 30)
    ∷ ("contentCheck", 50)
    ∷ ("requireApproval", 90)
    ∷ ("dualAuthorization", 90)
    ∷ []

unfoldable pub cost_in : List (String × ℕ) → String → Option ℕ
cost_in [] name = none
cost_in ((n, c) ∷ costs) name =
    let later = cost_in costs name in if str_eq n name then some c else later

-- the gates of a policy's list that have a cost
unfoldable pub costed : List (String × Value) → List Item
costed [] = []
costed ((name, cfg) ∷ rest) =
    let later = costed rest in
    elim (cost_in gate_costs name) [
      | none ↦ later
      | some c ↦ record { cost = c; name = name; cfg = cfg } ∷ later
    ]

-- the guard of a transition that declares states, which costs nothing
abbrev pub guarding : Kind → List String → List Item
guarding Kind.transition (s ∷ ss) =
    record {
      cost = 0;
      name = "_transition_from";
      cfg = Value.dict (field "from" (Value.list (texts (s ∷ ss))) empty);
    }
    ∷ []
guarding _ _ = []

-- the gates that an action's verdict depends on, in the order of the policy
abbrev pub demanded : ResolvedAction → List (String × Value) → List Item
demanded a gates = guarding a.kind a.from_states ++ costed gates

-- the costs of a table
costs_of : {W : Type 0} → List (String × Gate W) → List (String × ℕ)
costs_of [] = []
costs_of ((n, g) ∷ rest) = (n, g.cost) ∷ costs_of rest

cost_found : {W : Type 0} → Option (Gate W) → Option ℕ
cost_found none = none
cost_found (some g) = some g.cost

cost-find_gate :
    {W : Type 0} (table : List (String × Gate W)) (name : String)
    → cost_found (find_gate table name) ≡ cost_in (costs_of table) name
unfolding find_gate costs_of cost_found cost_in
cost-find_gate [] name = refl
cost-find_gate ((n, g) ∷ rest) name = elim (Bool-cases (str_eq n name)) [
  | inl e ↦ rw (find_gate, cost_in, e) refl
  | inr e ↦ rw (find_gate, cost_in, e) (cost-find_gate rest name)
]

with_guard-guarding :
    (a : ResolvedAction) (items : List Item)
    → with_guard a items ≡ guarding a.kind a.from_states ++ items
unfolding with_guard guard_item has_any kind_eq
with_guard-guarding a items = go a.kind a.from_states
  where
    go :
        (kind : Kind) (states : List String)
        → (if kind_eq kind Kind.transition
            then (if has_any states then guard_item states ∷ items else items)
            else items)
          ≡ guarding kind states ++ items
    go Kind.observe states = refl
    go Kind.assess states = refl
    go Kind.record_ states = refl
    go Kind.effect states = refl
    go Kind.transition [] = refl
    go Kind.transition (s ∷ ss) = refl

module _ {W : Type 0} (py : GatePy) (ctx : GateContext W) where
  table_costs : costs_of (gate_table py ctx) ≡ gate_costs
  unfolding costs_of gate_table
  table_costs = refl

  known_items-costed : (gates : List (String × Value)) → known_items py ctx gates ≡ costed gates
  unfolding known_items cost_found costed
  known_items-costed [] = refl
  known_items-costed ((name, cfg) ∷ rest) =
      let e : cost_found (find_gate (gate_table py ctx) name) ≡ cost_in gate_costs name =
        cost-find_gate (gate_table py ctx) name ∙ ap (λ t. cost_in t name) table_costs in
      elim (Option-cases (find_gate (gate_table py ctx) name)) [
        | inl f ↦
            let none_found : cost_in gate_costs name ≡ none = sym (rw f at e) in
            rw (known_items, f, costed, none_found) (known_items-costed rest)
        | inr (g, f) ↦
            let found : cost_in gate_costs name ≡ some g.cost = sym (rw f at e) in
            rw (known_items, f, costed, found)
              (ap (λ later. record { cost = g.cost; name = name; cfg = cfg } ∷ later)
                (known_items-costed rest))
      ]

  known_items-demanded :
      (a : ResolvedAction) (gates : List (String × Value))
      → with_guard a (known_items py ctx gates) ≡ demanded a gates
  known_items-demanded a gates =
      with_guard-guarding a _
      ∙ ap (λ items. guarding a.kind a.from_states ++ items) (known_items-costed gates)

  -- The gates that run for an action are those of the policy's list that are in the table of costs, and
  -- first the guard of a transition that declares states: none of these is added or lost, no gate
  -- runs after one that costs more, and gates of one cost keep the order of the policy.
  pub items_of-ByCost :
      (a : ResolvedAction) (gates : List (String × Value))
      → Perm (items_of py ctx a gates) (demanded a gates)
        × ByCost (items_of py ctx a gates)
        × ((c : ℕ) → costing c (items_of py ctx a gates) ≡ costing c (demanded a gates))
  unfolding items_of
  items_of-ByCost a gates =
      let same = known_items-demanded a gates in
      (
        subst (Perm (items_of py ctx a gates)) same (sort-perm _),
        sort-ByCost (with_guard a (known_items py ctx gates)),
        λ c. costing-sort c _ ∙ ap (costing c) same,
      )
