-- ===== src/Compiler/Keys.antt =====
-- stonefold_core/compiler.py: the gates that a policy lists for an action, and its feedback level.
pub mod Laws
use stonefold.Prelude.{
  String, Bool, true, false, Option, none, some, List, [], ◌∷◌, if◌then◌else◌, str_eq, ◌+s◌,
  contains, is_some,
}
use stonefold.Values.{Value}
use stonefold.Models.Enums.{kind_value, FeedbackLevel}
use stonefold.Models.Records.{ResolvedAction}
use stonefold.Feedback.{parse_feedback}

-- `policy.gates`: gate sets by key, each a configuration by the name of a gate
abbrev pub GateSet : Type 0
GateSet = List (String × Value)

abbrev pub GateSets : Type 0
GateSets = List (String × GateSet)

unfoldable pub find_set : GateSets → String → Option GateSet
find_set [] key = none
find_set ((k, s) ∷ rest) key =
    let later = find_set rest key in if str_eq k key then some s else later

unfoldable pub find_gate : GateSet → String → Option Value
find_gate [] name = none
find_gate ((n, cfg) ∷ rest) name =
    let later = find_gate rest name in if str_eq n name then some cfg else later

action_keys : String → Option String → List String → List String
action_keys resource none rest = rest
action_keys resource (some action) rest = (resource +s "." +s action) ∷ action ∷ rest

-- the candidates that are keys and were not seen
unfoldable pub known_keys : GateSets → List String → List String → List String
unfolding find_set
known_keys sets seen [] = []
known_keys sets seen (key ∷ keys) =
    let skipped = known_keys sets seen keys in
    let taken = key ∷ known_keys sets (key ∷ seen) keys in
    if is_some (find_set sets key) then (if contains seen key then skipped else taken) else skipped

unfoldable pub gate_keys_for : GateSets → ResolvedAction → List String
unfolding action_keys known_keys
gate_keys_for sets a =
    known_keys sets [] (action_keys a.resource a.action (kind_value a.kind ∷ "*" ∷ []))

unfoldable pub set_last : GateSet → String → Value → GateSet
set_last [] n c = (n, c) ∷ []
set_last ((m, d) ∷ more) n c = (m, d) ∷ set_last more n c

-- merged.setdefault(gate_name, cfg), of all entries of a gate set
unfoldable pub merge : GateSet → GateSet → GateSet
unfolding find_gate set_last
merge merged [] = merged
merge merged ((name, cfg) ∷ rest) =
    let kept = merge merged rest in
    let added = merge (set_last merged name cfg) rest in
    if is_some (find_gate merged name) then kept else added

unfoldable pub merge_keys : GateSets → GateSet → List String → GateSet
unfolding merge find_set
merge_keys sets merged [] = merged
merge_keys sets merged (key ∷ keys) = elim (find_set sets key) [
  | none ↦ merge_keys sets merged keys
  | some s ↦ merge_keys sets (merge merged s) keys
]

unfoldable pub gates_for : GateSets → ResolvedAction → GateSet
unfolding merge_keys
gates_for sets a = merge_keys sets [] (gate_keys_for sets a)

level_of : (Value → String) → Option Value → FeedbackLevel
level_of text none = FeedbackLevel.code_fields
level_of text (some Value.null) = FeedbackLevel.code_fields
level_of text (some v) = parse_feedback (text v)

-- with str() of a value
unfoldable pub feedback_for : (Value → String) → GateSets → ResolvedAction → FeedbackLevel
unfolding level_of find_gate
feedback_for text sets a = level_of text (find_gate (gates_for sets a) "feedback")
