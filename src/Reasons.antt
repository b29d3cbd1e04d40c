-- ===== src/Reasons.antt =====
-- stonefold_core/reasons.py: reason codes and retry classes.
pub mod Laws
use mathlib.Core.List.{reverse}
use stonefold.Prelude.{
  String, Bool, true, false, not, Option, none, some, List, [], ◌∷◌, ◌&&◌, if◌then◌else◌, str_eq,
  contains, find, starts_with, strip_prefix,
}
use stonefold.Models.Enums.{Decision, Outcome, RetryClass, is_pass, holds}
use stonefold.Models.Records.{GateResult}

abbrev pub retryable_gates : List String
retryable_gates =
    "valueLimit" ∷ "rate" ∷ "quota" ∷ "quantityCap" ∷ "spendLimit" ∷ "window" ∷ "contentCheck"
    ∷ "requireExplanation" ∷ []

abbrev exact_reasons : List (String × RetryClass)
exact_reasons =
    ("stale-decision", RetryClass.retryable)
    ∷ ("hold-unresolvable", RetryClass.escalate)
    ∷ ("unknown-action", RetryClass.terminal)
    ∷ ("default-deny", RetryClass.terminal)
    ∷ ("scope-denied", RetryClass.terminal)
    ∷ ("scope-unavailable", RetryClass.terminal)
    ∷ ("scope-lost", RetryClass.terminal)
    ∷ ("no-match", RetryClass.terminal)
    ∷ ("reservation-unavailable", RetryClass.terminal)
    ∷ []

abbrev reason_prefixes : List (String × RetryClass)
reason_prefixes =
    ("stale-guard:", RetryClass.retryable)
    ∷ ("expired-hold:", RetryClass.escalate)
    ∷ ("kill:", RetryClass.terminal)
    ∷ ("deny", RetryClass.terminal)
    ∷ []

unfoldable pub gate_class : String → RetryClass
gate_class gate =
    if contains retryable_gates gate then RetryClass.retryable else RetryClass.terminal

-- _EXACT.get(rule)
exact_class : List (String × RetryClass) → String → Option RetryClass
exact_class [] rule = none
exact_class ((reason, cls) ∷ rest) rule =
    let later = exact_class rest rule in if str_eq reason rule then some cls else later

-- the loop over _PREFIXES
prefix_class : List (String × RetryClass) → String → RetryClass
prefix_class [] rule = RetryClass.terminal
prefix_class ((prefix, cls) ∷ rest) rule =
    let later = prefix_class rest rule in if starts_with rule prefix then cls else later

unfoldable pub rule_class : String → RetryClass
unfolding exact_class prefix_class
rule_class rule = elim (exact_class exact_reasons rule) [
  | some cls ↦ cls
  | none ↦ prefix_class reason_prefixes rule
]

-- the gate's result that decided a refusal `gate:<name>`
unfoldable pub deciding_gate : String → List GateResult → Option GateResult
deciding_gate gate gates = find (λ g. str_eq g.gate gate && not (is_pass g.outcome)) (reverse gates)

-- `code or rule`
unfoldable pub code_or : String → String → String
code_or code rule = if str_eq code "" then rule else code

class_of_gate : String → GateResult → Option RetryClass
class_of_gate gate g = elim g.retry_class [
  | some cls ↦ some cls
  | none ↦ if holds g.outcome then none else some (gate_class gate)
]

classify_gate : String → String → Option GateResult → String × Option RetryClass
classify_gate rule gate (some g) = (code_or g.code rule, class_of_gate gate g)
classify_gate rule gate none = (rule, some (gate_class gate))

-- at `rule.removeprefix("gate:")`, where the rule has that prefix
classify_named : Option String → String → List GateResult → String × Option RetryClass
unfolding classify_gate class_of_gate
classify_named (some gate) rule gates = classify_gate rule gate (deciding_gate gate gates)
classify_named none rule gates = (rule, some (rule_class rule))

classify_refusal : String → List GateResult → String × Option RetryClass
unfolding classify_named
classify_refusal rule gates = classify_named (strip_prefix rule "gate:") rule gates

unfoldable pub classify : Decision → String → List GateResult → String × Option RetryClass
unfolding classify_refusal
classify Decision.allow rule gates = ("", none)
classify Decision.hold rule gates = classify_refusal rule gates
classify Decision.deny rule gates = classify_refusal rule gates
classify Decision.halt rule gates = classify_refusal rule gates
