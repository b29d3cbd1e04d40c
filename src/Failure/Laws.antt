-- ===== src/Failure/Laws.antt =====
-- The floor and the switch of stonefold_core/failure.py.
use stonefold.Prelude.{◌≡◌, refl, ◌||◌, Bool, false, Option, none, some, arith}
use stonefold.Models.Enums.{FailureMode}
use stonefold.Models.Records.{ResolvedAction}
use stonefold.Failure.{should_fail_closed, irreversible_effect, is_closed}

-- the resolved action's own floor; an unresolved call has none
abbrev pub floor_of : Option ResolvedAction → Bool
floor_of none = false
floor_of (some a) = irreversible_effect a

-- A failure closes exactly where the action is resolved as an irreversible effect, whatever the mode,
-- or the mode is closed.
pub should_fail_closed-floor :
    (resolved : Option ResolvedAction) (mode : FailureMode)
    → should_fail_closed resolved mode ≡ (floor_of resolved || is_closed mode)
unfolding should_fail_closed
should_fail_closed-floor none mode = refl
should_fail_closed-floor (some a) mode = ground arith
