-- ===== src/Compiler/Index.antt =====
-- The index by kind answers as a reading of the permission maps does.
use stonefold.Prelude.{
  ◌≡◌, refl, sym, ap, ◌∙◌, String, Bool, true, false, Option, none, some, List, [], ◌∷◌, ◌++◌, ◌||◌,
  ◌&&◌, if◌then◌else◌, str_eq, eq_iff, contains, any, is_some, not, arith, Bool-cases, inl, inr,
}
use stonefold.Models.Enums.{Kind, MatchSpecificity, kind_eq}
use stonefold.Models.Records.{ResolvedAction}
use stonefold.Compiler.{
  Targets, PermissionMap, KindIndex, KindMatcher, no_index, add_named, add_all, add_target, add,
  index_of, actions_named, max_spec, is_named, match_star, match_token, match_resource, match_named,
  match_index, match_at, match, add_map, compile, authorize_with, authorize_allow,
}

-- whether an entry `{Resource: [actions]}` names the action of the resource
named_in : List (String × List String) → String → String → Bool
named_in [] resource action = false
named_in ((r, actions) ∷ rest) resource action =
    (str_eq r resource && contains actions action) || named_in rest resource action

-- Whether a target covers a call, at each specificity.
unfoldable pub covers : Targets → String → Option String → MatchSpecificity → Bool
unfolding named_in
covers Targets.star resource action MatchSpecificity.star = true
covers Targets.star resource action MatchSpecificity.resource = false
covers Targets.star resource action MatchSpecificity.action = false
covers (Targets.tokens ts) resource action MatchSpecificity.star = false
covers (Targets.tokens ts) resource action MatchSpecificity.resource = contains ts resource
covers (Targets.tokens ts) resource none MatchSpecificity.action = false
covers (Targets.tokens ts) resource (some a) MatchSpecificity.action = contains ts a
covers (Targets.named m) resource action MatchSpecificity.star = false
covers (Targets.named m) resource action MatchSpecificity.resource = false
covers (Targets.named m) resource none MatchSpecificity.action = false
covers (Targets.named m) resource (some a) MatchSpecificity.action = named_in m resource a

-- The strongest specificity that a test accepts.
abbrev pub strongest : (MatchSpecificity → Bool) → Option MatchSpecificity
strongest p =
    if p MatchSpecificity.action
    then some MatchSpecificity.action
    else if p MatchSpecificity.resource
    then some MatchSpecificity.resource
    else if p MatchSpecificity.star
    then some MatchSpecificity.star
    else none

-- Whether one entry of a permission map is for the kind and covers the call.
unfoldable pub entry_covers :
    Kind → String → Option String → MatchSpecificity → Kind × Targets → Bool
entry_covers kind resource action spec (k, target) =
    kind_eq k kind && covers target resource action spec

-- Whether some entry of some map covers the call: the maps read one by one.
unfoldable pub maps_cover :
    List PermissionMap → Kind → String → Option String → MatchSpecificity → Bool
maps_cover maps kind resource action spec =
    any (λ pmap. any (entry_covers kind resource action spec) pmap) maps

-- the index's tests, at each specificity
sees : KindIndex → String → Option String → MatchSpecificity → Bool
unfolding is_named
sees idx resource action MatchSpecificity.star = idx.has_star
sees idx resource action MatchSpecificity.resource = contains idx.token_set resource
sees idx resource none MatchSpecificity.action = false
sees idx resource (some a) MatchSpecificity.action =
    contains idx.token_set a || is_named (actions_named idx.action_map resource) a

match_index-strongest :
    (idx : KindIndex) (resource : String) (action : Option String)
    → match_index idx resource action ≡ strongest (sees idx resource action)
unfolding match_index match_star match_token match_resource match_named max_spec sees
match_index-strongest idx resource none = ground arith
match_index-strongest idx resource (some a) = ground arith

contains-++ :
    (xs ys : List String) (s : String) → contains (xs ++ ys) s ≡ (contains xs s || contains ys s)
contains-++ [] ys s = refl
contains-++ (x ∷ xs) ys s = ground (arith, contains-++ xs ys s)

add_named-names :
    (known : List (String × List String)) (r : String) (actions : List String) (resource a : String)
    → is_named (actions_named (add_named known r actions) resource) a
      ≡ (is_named (actions_named known resource) a || (str_eq r resource && contains actions a))
unfolding add_named actions_named is_named
add_named-names [] r actions resource a = ground arith
add_named-names ((q, old) ∷ rest) r actions resource a = ground (
  arith,
  eq_iff q r,
  eq_iff q resource,
  eq_iff r resource,
  contains-++ old actions a,
  add_named-names rest r actions resource a,
)

add_all-names :
    (known m : List (String × List String)) (resource a : String)
    → is_named (actions_named (add_all known m) resource) a
      ≡ (is_named (actions_named known resource) a || named_in m resource a)
unfolding add_all named_in
add_all-names known [] resource a = ground arith
add_all-names known ((r, actions) ∷ rest) resource a = ground (
  arith,
  add_named-names known r actions resource a,
  add_all-names (add_named known r actions) rest resource a,
)

add_target-sees :
    (idx : KindIndex) (t : Targets) (resource : String) (action : Option String)
    (spec : MatchSpecificity)
    → sees (add_target idx t) resource action spec
      ≡ (sees idx resource action spec || covers t resource action spec)
unfolding add_target sees covers
add_target-sees idx Targets.star resource action MatchSpecificity.star = ground arith
add_target-sees idx Targets.star resource action MatchSpecificity.resource = ground arith
add_target-sees idx Targets.star resource none MatchSpecificity.action = refl
add_target-sees idx Targets.star resource (some a) MatchSpecificity.action = ground arith
add_target-sees idx (Targets.tokens ts) resource action MatchSpecificity.star = ground arith
add_target-sees idx (Targets.tokens ts) resource action MatchSpecificity.resource =
    contains-++ idx.token_set ts resource
add_target-sees idx (Targets.tokens ts) resource none MatchSpecificity.action = refl
add_target-sees idx (Targets.tokens ts) resource (some a) MatchSpecificity.action =
    ground (arith, contains-++ idx.token_set ts a)
add_target-sees idx (Targets.named m) resource action MatchSpecificity.star = ground arith
add_target-sees idx (Targets.named m) resource action MatchSpecificity.resource = ground arith
add_target-sees idx (Targets.named m) resource none MatchSpecificity.action = refl
add_target-sees idx (Targets.named m) resource (some a) MatchSpecificity.action =
    ground (arith, add_all-names idx.action_map m resource a)

seen : Option KindIndex → String → Option String → MatchSpecificity → Bool
seen none resource action spec = false
seen (some idx) resource action spec = sees idx resource action spec

no_index-sees :
    (resource : String) (action : Option String) (spec : MatchSpecificity)
    → sees no_index resource action spec ≡ false
unfolding sees actions_named is_named
no_index-sees resource action MatchSpecificity.star = refl
no_index-sees resource action MatchSpecificity.resource = refl
no_index-sees resource none MatchSpecificity.action = refl
no_index-sees resource (some a) MatchSpecificity.action = refl

kind_eq-same : (k l : Kind) → kind_eq k l ≡ true → k ≡ l
unfolding kind_eq
kind_eq-same k l h = ground arith

kind_eq_refl : (k : Kind) → kind_eq k k ≡ true
unfolding kind_eq
kind_eq_refl k = ground arith

kind_eq-with : (j k l : Kind) → kind_eq j k ≡ true → kind_eq k l ≡ kind_eq j l
kind_eq-with j k l h = ap (λ x. kind_eq x l) (sym (kind_eq-same j k h))

kind_eq-other : (j k l : Kind) → kind_eq j k ≡ false → kind_eq j l ≡ true → kind_eq k l ≡ false
kind_eq-other j k l apart same = elim (Bool-cases (kind_eq k l)) [
  | inr e ↦ e
  | inl e ↦
      let g : kind_eq j k ≡ true =
        ap (kind_eq j) (kind_eq-same k l e ∙ sym (kind_eq-same j l same)) ∙ kind_eq_refl j in
      absurd (ground arith)
]

or_false : (b : Bool) → b ≡ (b || false)
or_false b = ground arith

module _ (kind : Kind) (resource : String) (action : Option String) (spec : MatchSpecificity) where
  add-seen :
      (m : KindMatcher) (k : Kind) (t : Targets)
      → seen (index_of (add m k t) kind) resource action spec ≡ (
          seen (index_of m kind) resource action spec
          || entry_covers kind resource action spec (k, t))
  unfolding add index_of seen entry_covers
  add-seen [] k t = elim (Bool-cases (kind_eq k kind)) [
    | inl e ↦ rw e (rw (add_target-sees no_index t resource action spec) (rw no_index-sees refl))
    | inr e ↦ rw e refl
  ]
  add-seen ((j, idx) ∷ rest) k t = elim (Bool-cases (kind_eq j k)) [
    | inl e ↦ elim (Bool-cases (kind_eq j kind)) [
      | inl f ↦ rw (e, f, kind_eq-with j k kind e ∙ f) (add_target-sees idx t resource action spec)
      | inr f ↦ rw (e, f, kind_eq-with j k kind e ∙ f) (or_false _)
    ]
    | inr e ↦ elim (Bool-cases (kind_eq j kind)) [
      | inl f ↦ rw (e, f, kind_eq-other j k kind e f) (or_false _)
      | inr f ↦ rw (e, f) (add-seen rest k t)
    ]
  ]

  add_map-seen :
      (m : KindMatcher) (pmap : PermissionMap)
      → seen (index_of (add_map m pmap) kind) resource action spec ≡ (
          seen (index_of m kind) resource action spec
          || any (entry_covers kind resource action spec) pmap)
  unfolding add_map
  add_map-seen m [] = or_false _
  add_map-seen m ((k, t) ∷ rest) = ground (arith, add-seen m k t, add_map-seen (add m k t) rest)

  compile-seen :
      (maps : List PermissionMap) (m : KindMatcher)
      → seen (index_of (compile maps m) kind) resource action spec
        ≡ (seen (index_of m kind) resource action spec || maps_cover maps kind resource action spec)
  unfolding compile maps_cover
  compile-seen [] m = or_false _
  compile-seen (pmap ∷ rest) m =
      ground (arith, add_map-seen m pmap, compile-seen rest (add_map m pmap))

strongest-same :
    {p q : MatchSpecificity → Bool}
    → ((s : MatchSpecificity) → p s ≡ q s)
    → strongest p ≡ strongest q
strongest-same h =
    rw (h MatchSpecificity.action, h MatchSpecificity.resource, h MatchSpecificity.star) refl

match_at-seen :
    (o : Option KindIndex) (resource : String) (action : Option String)
    → match_at o resource action ≡ strongest (seen o resource action)
unfolding match_at seen
match_at-seen none resource action = refl
match_at-seen (some idx) resource action = match_index-strongest idx resource action

-- The compiled index, asked for a kind, a resource and an action, gives what a reading of the
-- permission maps entry by entry gives: the strongest specificity at which some entry of the kind
-- covers the call, where a named action is stronger than a resource and a resource than a star.
pub compile-match :
    (maps : List PermissionMap) (kind : Kind) (resource : String) (action : Option String)
    → match (compile maps []) kind resource action
      ≡ strongest (maps_cover maps kind resource action)
unfolding match maps_cover seen index_of
compile-match maps kind resource action =
    match_at-seen (index_of (compile maps []) kind) resource action
    ∙ strongest-same (λ spec. compile-seen kind resource action spec maps [])

-- Whether some entry covers the call at any specificity.
abbrev pub covered : List PermissionMap → ResolvedAction → Bool
covered maps a = is_some (strongest (maps_cover maps a.kind a.resource a.action))

allowed-authorize :
    (allow deny : KindMatcher) (a : ResolvedAction)
    → (authorize_with allow deny a).allowed ≡ (
        not (is_some (match deny a.kind a.resource a.action))
        && is_some (match allow a.kind a.resource a.action))
unfolding authorize_with authorize_allow
allowed-authorize allow deny a = ground arith

-- A call is allowed exactly when no entry of the deny maps covers it and some entry of the allow maps
-- does: a deny wins, and what no entry covers is denied.
pub authorize-reads :
    (allow deny : List PermissionMap) (a : ResolvedAction)
    → (authorize_with (compile allow []) (compile deny []) a).allowed
      ≡ (not (covered deny a) && covered allow a)
authorize-reads allow deny a =
    rw
      (
        sym (compile-match allow a.kind a.resource a.action),
        sym (compile-match deny a.kind a.resource a.action),
      )
      (allowed-authorize (compile allow []) (compile deny []) a)
