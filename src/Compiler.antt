-- ===== src/Compiler.antt =====
-- stonefold_core/compiler.py: allow and deny compiled to an index by kind, and authorization.
pub mod Index
pub mod Keys
use stonefold.Prelude.{
  ℕ, String, Bool, true, false, Option, none, some, List, [], ◌∷◌, ◌++◌, if◌then◌else◌, str_eq,
  contains, leb,
}
use stonefold.Models.Enums.{Kind, MatchSpecificity, kind_eq}
use stonefold.Models.Records.{ResolvedAction}

-- policy.py: '*' | [resources-or-actions] | {Resource: [actions]}
pub data Targets : Type 0 where
  star : Targets
  tokens : List String → Targets
  named : List (String × List String) → Targets

-- One entry of an allow or deny list.
abbrev pub PermissionMap : Type 0
PermissionMap = List (Kind × Targets)

abbrev pub rank : MatchSpecificity → ℕ
rank MatchSpecificity.star = 1
rank MatchSpecificity.resource = 2
rank MatchSpecificity.action = 3

-- `_KindIndex`: `action_map` maps a resource to the actions that are named for it.
pub record KindIndex : Type 0 where
  pub has_star : Bool
  pub token_set : List String
  pub action_map : List (String × List String)

abbrev pub no_index : KindIndex
no_index = record { has_star = false; token_set = []; action_map = [] }

-- `KindMatcher._by_kind`
abbrev pub KindMatcher : Type 0
KindMatcher = List (Kind × KindIndex)

-- idx.action_map.setdefault(resource, set()).update(actions)
add_named : List (String × List String) → String → List String → List (String × List String)
add_named [] resource actions = (resource, actions) ∷ []
add_named ((r, known) ∷ rest) resource actions =
    let later = add_named rest resource actions in
    if str_eq r resource then (r, known ++ actions) ∷ rest else (r, known) ∷ later

add_all : List (String × List String) → List (String × List String) → List (String × List String)
unfolding add_named
add_all known [] = known
add_all known ((resource, actions) ∷ rest) = add_all (add_named known resource actions) rest

add_target : KindIndex → Targets → KindIndex
unfolding add_all
add_target idx Targets.star = record idx { has_star = true }
add_target idx (Targets.tokens ts) = record idx { token_set = idx.token_set ++ ts }
add_target idx (Targets.named m) = record idx { action_map = add_all idx.action_map m }

-- `KindMatcher.add`
unfoldable pub add : KindMatcher → Kind → Targets → KindMatcher
unfolding add_target
add [] kind target = (kind, add_target no_index target) ∷ []
add ((k, idx) ∷ rest) kind target =
    let later = add rest kind target in
    if kind_eq k kind then (k, add_target idx target) ∷ rest else (k, idx) ∷ later

-- self._by_kind.get(kind)
unfoldable pub index_of : KindMatcher → Kind → Option KindIndex
index_of [] kind = none
index_of ((k, idx) ∷ rest) kind =
    let later = index_of rest kind in if kind_eq k kind then some idx else later

-- named = idx.action_map.get(resource)
unfoldable pub actions_named : List (String × List String) → String → Option (List String)
actions_named [] resource = none
actions_named ((r, actions) ∷ rest) resource =
    let later = actions_named rest resource in if str_eq r resource then some actions else later

unfoldable pub max_spec : Option MatchSpecificity → MatchSpecificity → MatchSpecificity
max_spec none b = b
max_spec (some a) b = if leb (rank b) (rank a) then a else b

is_named : Option (List String) → String → Bool
is_named none action = false
is_named (some actions) action = contains actions action

-- the tests of `KindMatcher.match` in their order
match_star : KindIndex → Option MatchSpecificity
match_star idx = if idx.has_star then some MatchSpecificity.star else none

match_token : KindIndex → Option String → Option MatchSpecificity → Option MatchSpecificity
match_token idx none best = best
match_token idx (some action) best =
    if contains idx.token_set action then some (max_spec best MatchSpecificity.action) else best

match_resource : KindIndex → String → Option MatchSpecificity → Option MatchSpecificity
match_resource idx resource best =
    if contains idx.token_set resource then some (max_spec best MatchSpecificity.resource) else best

match_named : KindIndex → String → Option String → Option MatchSpecificity → Option MatchSpecificity
unfolding is_named
match_named idx resource none best = best
match_named idx resource (some action) best =
    if is_named (actions_named idx.action_map resource) action
    then some (max_spec best MatchSpecificity.action)
    else best

unfoldable pub match_index : KindIndex → String → Option String → Option MatchSpecificity
unfolding match_star match_token match_resource match_named
match_index idx resource action =
    match_named idx resource action
      (match_resource idx resource (match_token idx action (match_star idx)))

match_at : Option KindIndex → String → Option String → Option MatchSpecificity
match_at none resource action = none
match_at (some idx) resource action = match_index idx resource action

-- `KindMatcher.match`
unfoldable pub match : KindMatcher → Kind → String → Option String → Option MatchSpecificity
unfolding match_at
match m kind resource action = match_at (index_of m kind) resource action

pub record AuthzResult : Type 0 where
  pub allowed : Bool
  pub rule : String
  pub specificity : Option MatchSpecificity

add_map : KindMatcher → PermissionMap → KindMatcher
add_map m [] = m
add_map m ((kind, target) ∷ rest) = add_map (add m kind target) rest

-- the loops of `CompiledPolicy.__init__`
unfoldable pub compile : List PermissionMap → KindMatcher → KindMatcher
unfolding add_map
compile [] m = m
compile (pmap ∷ rest) m = compile rest (add_map m pmap)

authorize_allow : Option MatchSpecificity → AuthzResult
authorize_allow (some spec) = record { allowed = true; rule = "allow"; specificity = some spec }
authorize_allow none = record { allowed = false; rule = "default-deny"; specificity = none }

-- `CompiledPolicy.authorize`, over the two compiled matchers
unfoldable pub authorize_with : KindMatcher → KindMatcher → ResolvedAction → AuthzResult
unfolding authorize_allow
authorize_with allow deny a = elim (match deny a.kind a.resource a.action) [
  | some _ ↦ record { allowed = false; rule = "deny-rule"; specificity = none }
  | none ↦ authorize_allow (match allow a.kind a.resource a.action)
]
