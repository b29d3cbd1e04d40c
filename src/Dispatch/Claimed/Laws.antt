-- ===== src/Dispatch/Claimed/Laws.antt =====
-- What a settled row says of what was done.
use stonefold.Prelude.{
  ◌≡◌, ℕ, suc, ◌≤◌, Bool, true, false, Option, none, some, List, [], ◌∷◌, any, if◌then◌else◌,
}
use stonefold.Models.Enums.{Decision}
use stonefold.Models.Records.{ResolvedAction}
use stonefold.Failure.{Call, ok, raised}
use stonefold.Outbox.{PendingState}
use stonefold.Dispatch.{
  cancelled, failed, Asked, target_fetched, dispatched, consume_asked, Settlement,
}

abbrev is_sent : Asked → Bool
is_sent dispatched = true
is_sent target_fetched = false
is_sent consume_asked = false

abbrev is_consumed : Asked → Bool
is_consumed consume_asked = true
is_consumed target_fetched = false
is_consumed dispatched = false

abbrev sendings : List Asked → ℕ
sendings [] = 0
sendings (a ∷ as') = let rest = sendings as' in if is_sent a then suc rest else rest

-- the audit's decision for each state that a settle leaves
abbrev agrees : PendingState → Decision → Bool
agrees PendingState.done Decision.allow = true
agrees PendingState.failed Decision.deny = true
agrees PendingState.cancelled Decision.halt = true
agrees _ _ = false

abbrev is_done : PendingState → Bool
is_done PendingState.done = true
is_done _ = false

abbrev is_failed : PendingState → Bool
is_failed PendingState.failed = true
is_failed _ = false

abbrev undoes : Call (Option ResolvedAction) → Bool
undoes (ok none) = false
undoes (ok (some a)) = true
undoes raised = true

-- The effect was sent at most once; a row is DONE only if it was sent; the obligation is consumed only
-- on a DONE row; a compensation comes of a FAILED row alone; and the audit's decision is the state's.
pub record IsSettled {W : Type 0} (s : Settlement W) : Type 0 where
  pub once : sendings s.asked ≤ 1
  pub sent : is_done s.state ≡ true → any is_sent s.asked ≡ true
  pub spent : any is_consumed s.asked ≡ true → is_done s.state ≡ true
  pub undone : undoes s.compensation ≡ true → is_failed s.state ≡ true
  pub verdict : agrees s.state s.audit.decision ≡ true

-- What was asked before a settle that does not deliver.
record IsCalm (asked : List Asked) : Type 0 where
  once : sendings asked ≤ 1
  unspent : any is_consumed asked ≡ false
