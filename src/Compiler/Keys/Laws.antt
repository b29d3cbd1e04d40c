-- ===== src/Compiler/Keys/Laws.antt =====
-- Which configuration governs a gate.
use stonefold.Prelude.{
  ◌≡◌, refl, sym, ap, String, Bool, true, false, Option, none, some, List, [], ◌∷◌, if◌then◌else◌,
  str_eq, eq_iff, arith, Bool-cases, Option-cases, inl, inr, contains, ◌+s◌, ◌∙◌,
}
use stonefold.Values.{Value}
use stonefold.Models.Enums.{kind_value}
use stonefold.Models.Records.{ResolvedAction}
use stonefold.Compiler.Keys.{
  GateSet, GateSets, find_set, find_gate, set_last, merge, merge_keys, gates_for, gate_keys_for,
  known_keys, action_keys,
}

-- the first of two that is there
abbrev pub first_some : Option Value → Option Value → Option Value
first_some none o = o
first_some (some v) o = some v

set_gate : GateSets → String → String → Option Value
set_gate sets key name = elim (find_set sets key) [ none ↦ none | some s ↦ find_gate s name ]

-- the configuration of the first key that has one
unfoldable pub governing : GateSets → List String → String → Option Value
unfolding set_gate
governing sets [] name = none
governing sets (key ∷ keys) name = first_some (set_gate sets key name) (governing sets keys name)

first_none : (o : Option Value) → first_some o none ≡ o
first_none none = refl
first_none (some v) = refl

first_assoc : (a b c : Option Value) → first_some (first_some a b) c ≡ first_some a (first_some b c)
first_assoc none b c = refl
first_assoc (some v) b c = refl

find-set_last :
    (m : GateSet) (n : String) (c : Value) (name : String)
    → find_gate (set_last m n c) name
      ≡ first_some (find_gate m name) (if str_eq n name then some c else none)
unfolding find_gate set_last
find-set_last [] n c name = refl
find-set_last ((k, d) ∷ m) n c name = ground (arith, find-set_last m n c name)

taken :
    (b : Bool) (c : Value) (o : Option Value)
    → first_some (if b then some c else none) o ≡ (if b then some c else o)
taken true c o = refl
taken false c o = refl

kept :
    (m : GateSet) (n name : String) (c v : Value) (o : Option Value)
    → find_gate m n ≡ some v
    → first_some (find_gate m name) o
      ≡ first_some (find_gate m name) (if str_eq n name then some c else o)
kept m n name c v o e = elim (Bool-cases (str_eq n name)) [
  | inl same ↦
      let found : find_gate m name ≡ some v = rw (sym ((eq_iff n name).0 same)) e in rw found refl
  | inr other ↦ rw other refl
]

find-merge :
    (m s : GateSet) (name : String)
    → find_gate (merge m s) name ≡ first_some (find_gate m name) (find_gate s name)
unfolding find_gate merge
find-merge m [] name = sym (first_none _)
find-merge m ((n, c) ∷ s) name = elim (Option-cases (find_gate m n)) [
  | inl e ↦
      rw (merge, e, find-merge (set_last m n c) s name, find-set_last m n c name, first_assoc)
        (ap (first_some (find_gate m name)) (taken (str_eq n name) c (find_gate s name)))
  | inr (v, e) ↦ rw (merge, e, find-merge m s name) (kept m n name c v (find_gate s name) e)
]

find-merge_keys :
    (sets : GateSets) (m : GateSet) (keys : List String) (name : String)
    → find_gate (merge_keys sets m keys) name
      ≡ first_some (find_gate m name) (governing sets keys name)
unfolding merge_keys governing set_gate
find-merge_keys sets m [] name = sym (first_none _)
find-merge_keys sets m (key ∷ keys) name = elim (Option-cases (find_set sets key)) [
  | inl e ↦ rw (merge_keys, set_gate, e) (find-merge_keys sets m keys name)
  | inr (s, e) ↦
      rw (merge_keys, set_gate, e, find-merge_keys sets (merge m s) keys name, find-merge m s name)
        (first_assoc (find_gate m name) (find_gate s name) (governing sets keys name))
]

first_idem : (m g : Option Value) → first_some (first_some m g) g ≡ first_some m g
first_idem none none = refl
first_idem none (some v) = refl
first_idem (some v) g = refl

first_later :
    (m g k : Option Value) → first_some m k ≡ m → first_some (first_some m g) k ≡ first_some m g
first_later none g k h = rw h (first_none g)
first_later (some v) g k h = refl

first_skip :
    (m g rest : Option Value)
    → first_some m g ≡ m
    → first_some m (first_some g rest) ≡ first_some m rest
first_skip m g rest h = sym (first_assoc m g rest) ∙ ap (λ x. first_some x rest) h

module _ (sets : GateSets) (name : String) where
  -- what a gate set that was seen says is already in what was found
  abbrev Covers : List String → Option Value → Type 0
  Covers seen m =
      (key : String) → contains seen key ≡ true → first_some m (set_gate sets key name) ≡ m

  Covers-seen :
      (seen : List String) (m : Option Value) (key : String)
      → Covers seen m
      → Covers (key ∷ seen) (first_some m (set_gate sets key name))
  Covers-seen seen m key h k listed = elim (Bool-cases (str_eq key k)) [
    | inl e ↦ rw (sym ((eq_iff key k).0 e)) (first_idem m (set_gate sets key name))
    | inr e ↦
        first_later m (set_gate sets key name) (set_gate sets k name)
          (h k (ground (arith, e, listed)))
  ]

  -- dropping the keys that have no gate set, and those seen before, changes nothing
  governing-known_keys :
      (seen keys : List String) (m : Option Value)
      → Covers seen m
      → first_some m (governing sets (known_keys sets seen keys) name)
        ≡ first_some m (governing sets keys name)
  unfolding governing known_keys set_gate
  governing-known_keys seen [] m h = refl
  governing-known_keys seen (key ∷ keys) m h = elim (Option-cases (find_set sets key)) [
    | inl e ↦ rw (known_keys, set_gate, e) (governing-known_keys seen keys m h)
    | inr (s, e) ↦ elim (Bool-cases (contains seen key)) [
      | inl c ↦
          rw (known_keys, e, c)
            (governing-known_keys seen keys m h
              ∙ sym (first_skip m (set_gate sets key name) (governing sets keys name) (h key c)))
      | inr c ↦
          rw (known_keys, e, c)
            (sym (first_assoc m (set_gate sets key name) _)
              ∙ governing-known_keys (key ∷ seen) keys (first_some m (set_gate sets key name))
                  (Covers-seen seen m key h)
              ∙ first_assoc m (set_gate sets key name) (governing sets keys name))
    ]
  ]

-- from the most specific: the resource's action, the action alone, the kind, every call
abbrev pub by_specificity : ResolvedAction → List String
by_specificity a = elim a.action [
  | none ↦ kind_value a.kind ∷ "*" ∷ []
  | some action ↦ (a.resource +s "." +s action) ∷ action ∷ kind_value a.kind ∷ "*" ∷ []
]

-- A gate's configuration for an action is that of the first of these gate sets that names the gate:
-- the one of "resource.action", of the action's name, of the action's kind, of "*" (the first two
-- only where the call has an action); a gate that none of them names is not among the merged ones.
pub find-gates_for :
    (sets : GateSets) (a : ResolvedAction) (name : String)
    → find_gate (gates_for sets a) name ≡ governing sets (by_specificity a) name
unfolding gates_for gate_keys_for find_gate action_keys
find-gates_for sets a name =
    let keys = by_specificity a in find-merge_keys sets [] (gate_keys_for sets a) name ∙ go a.action
  where
    go :
        (action : Option String)
        → governing sets
            (known_keys sets [] (action_keys a.resource action (kind_value a.kind ∷ "*" ∷ [])))
            name
          ≡ governing sets
              (elim action [
                | none ↦ kind_value a.kind ∷ "*" ∷ []
                | some action ↦
                    (a.resource +s "." +s action) ∷ action ∷ kind_value a.kind ∷ "*" ∷ []
              ])
              name
    go none = governing-known_keys sets name [] _ none (λ key h. absurd (ground arith))
    go (some action) = governing-known_keys sets name [] _ none (λ key h. absurd (ground arith))
