-- ===== src/Models/Enums.antt =====
-- The frozen vocabulary of stonefold_core/enums.py, and the enumerations of policy.py, kill.py and
-- compiler.py.
use stonefold.Prelude.{String, Bool, true, false}

pub data Kind : Type 0 where
  observe assess record_ effect transition : Kind

pub data Decision : Type 0 where
  allow hold deny halt : Decision

pub data EnforcementMode : Type 0 where
  enforced advisory : EnforcementMode

pub data Coverage : Type 0 where
  judged unjudged : Coverage

pub data Outcome : Type 0 where
  pass fail hold : Outcome

pub data RetryClass : Type 0 where
  retryable terminal escalate : RetryClass

pub data FeedbackLevel : Type 0 where
  code code_fields code_evidence : FeedbackLevel

pub data Reversibility : Type 0 where
  reversible compensable irreversible : Reversibility

pub data Emission : Type 0 where
  none emits : Emission

pub data OperativeForce : Type 0 where
  none low high : OperativeForce

pub data Explainability : Type 0 where
  none required : Explainability

pub data FailureMode : Type 0 where
  closed open_ : FailureMode

-- KillScopeKind of stonefold_core/kill.py
pub data KillScopeKind : Type 0 where
  global agent session action_class : KillScopeKind

-- MatchSpecificity of stonefold_core/compiler.py
pub data MatchSpecificity : Type 0 where
  star resource action : MatchSpecificity

-- `a is b` on kinds
unfoldable pub kind_eq : Kind → Kind → Bool
kind_eq Kind.observe Kind.observe = true
kind_eq Kind.assess Kind.assess = true
kind_eq Kind.record_ Kind.record_ = true
kind_eq Kind.effect Kind.effect = true
kind_eq Kind.transition Kind.transition = true
kind_eq _ _ = false

-- kind.value
unfoldable pub kind_value : Kind → String
kind_value Kind.observe = "observe"
kind_value Kind.assess = "assess"
kind_value Kind.record_ = "record"
kind_value Kind.effect = "effect"
kind_value Kind.transition = "transition"

unfoldable pub reversibility_value : Reversibility → String
reversibility_value Reversibility.reversible = "reversible"
reversibility_value Reversibility.compensable = "compensable"
reversibility_value Reversibility.irreversible = "irreversible"

unfoldable pub emission_value : Emission → String
emission_value Emission.none = "none"
emission_value Emission.emits = "emits"

unfoldable pub force_value : OperativeForce → String
force_value OperativeForce.none = "none"
force_value OperativeForce.low = "low"
force_value OperativeForce.high = "high"

unfoldable pub explainability_value : Explainability → String
explainability_value Explainability.none = "none"
explainability_value Explainability.required = "required"

-- `decision in (Decision.DENY, Decision.HALT)`
abbrev pub is_refusal : Decision → Bool
is_refusal Decision.deny = true
is_refusal Decision.halt = true
is_refusal Decision.allow = false
is_refusal Decision.hold = false

abbrev pub is_allow : Decision → Bool
is_allow Decision.allow = true
is_allow Decision.hold = false
is_allow Decision.deny = false
is_allow Decision.halt = false

abbrev pub is_hold : Decision → Bool
is_hold Decision.hold = true
is_hold Decision.allow = false
is_hold Decision.deny = false
is_hold Decision.halt = false

abbrev pub is_halt : Decision → Bool
is_halt Decision.halt = true
is_halt Decision.allow = false
is_halt Decision.deny = false
is_halt Decision.hold = false

abbrev pub is_pass : Outcome → Bool
is_pass Outcome.pass = true
is_pass Outcome.fail = false
is_pass Outcome.hold = false

abbrev pub holds : Outcome → Bool
holds Outcome.hold = true
holds Outcome.pass = false
holds Outcome.fail = false

abbrev pub is_effect : Kind → Bool
is_effect Kind.effect = true
is_effect Kind.observe = false
is_effect Kind.assess = false
is_effect Kind.record_ = false
is_effect Kind.transition = false

abbrev pub is_irreversible : Reversibility → Bool
is_irreversible Reversibility.irreversible = true
is_irreversible Reversibility.reversible = false
is_irreversible Reversibility.compensable = false
