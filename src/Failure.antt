-- ===== src/Failure.antt =====
-- stonefold_core/failure.py: typed dependency results and the fail-closed rule.
pub mod Laws
use stonefold.Prelude.{Bool, true, false, Option, none, some, ◌&&◌, if◌then◌else◌}
use stonefold.Models.Enums.{FailureMode, is_effect, is_irreversible}
use stonefold.Models.Records.{ResolvedAction}

-- A call of an injected dependency: `raised` is any exception, which `guard` makes `Unavailable`.
pub data Call {ℓ} (A : Type ℓ) : Type ℓ where
  ok : A → Call A
  raised : Call A

abbrev pub is_closed : FailureMode → Bool
is_closed FailureMode.closed = true
is_closed FailureMode.open_ = false

-- `resolved.kind is Kind.EFFECT and resolved.attrs.reversibility is Reversibility.IRREVERSIBLE`
abbrev pub irreversible_effect : ResolvedAction → Bool
irreversible_effect a = is_effect a.kind && is_irreversible a.attrs.reversibility

unfoldable pub should_fail_closed : Option ResolvedAction → FailureMode → Bool
should_fail_closed none mode = is_closed mode
should_fail_closed (some a) mode = if irreversible_effect a then true else is_closed mode
