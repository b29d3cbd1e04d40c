-- ===== src/Reasons/Laws.antt =====
-- What the agent is told of a refusal.
use stonefold.Prelude.{
  String, ◌≡◌, refl, Bool, true, false, Option, none, some, List, str_eq, strip_prefix, arith,
}
use stonefold.Models.Enums.{Decision, holds}
use stonefold.Models.Records.{GateResult}
use stonefold.Reasons.{
  classify, classify_refusal, classify_named, classify_gate, class_of_gate, deciding_gate, code_or,
}

abbrev pub is_allowed : Decision → Bool
is_allowed Decision.allow = true
is_allowed _ = false

code_or-nonempty :
    (code rule : String) → str_eq rule "" ≡ false → str_eq (code_or code rule) "" ≡ false
unfolding code_or
code_or-nonempty code rule h = ground arith

gate-nonempty :
    (rule gate : String) (o : Option GateResult)
    → str_eq rule "" ≡ false
    → str_eq (classify_gate rule gate o).0 "" ≡ false
unfolding classify_gate
gate-nonempty rule gate (some g) h = code_or-nonempty g.code rule h
gate-nonempty rule gate none h = h

refusal-nonempty :
    (t : Option String) (rule : String) (gates : List GateResult)
    → str_eq rule "" ≡ false
    → str_eq (classify_named t rule gates).0 "" ≡ false
unfolding classify_named
refusal-nonempty (some gate) rule gates h = gate-nonempty rule gate (deciding_gate gate gates) h
refusal-nonempty none rule gates h = h

-- the deciding gate of a refusal, where the rule names one and the trace holds its result
decider_of : Option String → List GateResult → Option GateResult
decider_of (some gate) gates = deciding_gate gate gates
decider_of none gates = none

unfoldable pub decider : String → List GateResult → Option GateResult
unfolding decider_of
decider rule gates = decider_of (strip_prefix rule "gate:") gates

unclassed-hold :
    (rule gate : String) (o : Option GateResult)
    → (classify_gate rule gate o).1 ≡ none
    → (g : GateResult) × (o ≡ some g) × (holds g.outcome ≡ true)
unfolding classify_gate class_of_gate
unclassed-hold rule gate (some g) h = (g, refl, ground arith)
unclassed-hold rule gate none h = absurd (ground arith)

refusal-classed :
    (t : Option String) (rule : String) (gates : List GateResult)
    → (classify_named t rule gates).1 ≡ none
    → (g : GateResult) × (decider_of t gates ≡ some g) × (holds g.outcome ≡ true)
unfolding classify_named decider_of
refusal-classed (some gate) rule gates h = unclassed-hold rule gate (deciding_gate gate gates) h
refusal-classed none rule gates h = absurd (ground arith)

refused-classify :
    (d : Decision) (rule : String) (gates : List GateResult)
    → is_allowed d ≡ false
    → classify d rule gates ≡ classify_named (strip_prefix rule "gate:") rule gates
unfolding classify classify_refusal
refused-classify Decision.allow rule gates h = absurd (ground arith)
refused-classify Decision.hold rule gates h = refl
refused-classify Decision.deny rule gates h = refl
refused-classify Decision.halt rule gates h = refl

-- A refusal (any decision but ALLOW) under a nonempty rule always has a nonempty reason code, and
-- it lacks a retry class only where the gate that decided it holds.
pub refusal-is_told :
    (d : Decision) (rule : String) (gates : List GateResult)
    → is_allowed d ≡ false
    → str_eq rule "" ≡ false
    → (str_eq (classify d rule gates).0 "" ≡ false)
      × ((classify d rule gates).1 ≡ none
          → (g : GateResult) × (decider rule gates ≡ some g) × (holds g.outcome ≡ true))
unfolding decider
refusal-is_told d rule gates refused named =
    let t = strip_prefix rule "gate:" in
    rw (refused-classify d rule gates refused)
      (refusal-nonempty t rule gates named, refusal-classed t rule gates)
