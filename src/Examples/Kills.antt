-- ===== src/Examples/Kills.antt =====
-- A kill order issued elsewhere, and the message that announces it.
use stonefold.Prelude.{
  ◌≡◌, refl, Bool, true, String, is_some, length, List, if◌then◌else◌, not, nat_eq, [], ◌∷◌, some,
  none,
}
use stonefold.Models.Enums.{KillScopeKind}
use stonefold.Kill.{KillScope, KillTarget, pre_target, scope_matches}
use stonefold.Failure.{Call, raised}
use stonefold.Kill.Store.Standing.{Op, issue_op, lift_op, step, run, issued-halts}
use stonefold.Kill.Store.{
  KillStore, no_orders, issue, matches, active_orders, active_of, order_at, set_order,
}
use stonefold.Kill.Store.Cached.{
  Reach, here, next, message, elsewhere_written, reload, on_invalidation, CachedKillStore,
  IsCoherent, Reach-IsCoherent,
}

abbrev pub everywhere : KillScope
everywhere = record {
  kind = KillScopeKind.global;
  agent = none;
  session_id = none;
  action_kind = none;
  resource = none;
  action = none;
}

abbrev pub killed : KillStore
killed = (issue no_orders "k1" 5 everywhere "ops" none).0

abbrev issued : Op
issued = issue_op "k1" 5 everywhere "ops" none

abbrev informed : CachedKillStore
informed =
    on_invalidation (reload no_orders no_orders) (step no_orders issued)
      (run (step no_orders issued) []) 1

abbrev two_steps :
    Reach no_orders
      (reload no_orders no_orders)
      true
      (run (step no_orders issued) [])
      informed
      (if not (nat_eq 1 (reload no_orders no_orders).epoch) then true else true)
two_steps = next (next here (elsewhere_written issued)) (message 1 [])

Reach-IsCoherent_example :
    IsCoherent
      (run (step no_orders issued) [])
      informed
      (if not (nat_eq 1 (reload no_orders no_orders).epoch) then true else true)
Reach-IsCoherent_example = Reach-IsCoherent two_steps

-- A write between the two reads of a reload leaves a cache at the store's epoch that lacks its order,
-- and the message of that write passes it by.
torn_reload :
    let torn = reload no_orders (step no_orders issued) in
    (torn.epoch ≡ (step no_orders issued).epoch)
    × (torn.snapshot ≡ [])
    × (length (active_orders (step no_orders issued)) ≡ 1)
    × (on_invalidation torn (step no_orders issued) (step no_orders issued) 1 ≡ torn)
unfolding reload on_invalidation step issue active_orders active_of order_at set_order
torn_reload = (refl, refl, refl, refl)

abbrev somebody : KillTarget
somebody = pre_target "teller" "s1"

fits : scope_matches everywhere somebody ≡ true
unfolding scope_matches
fits = refl

abbrev pub no_predicates : String → KillTarget → Call Bool
no_predicates p t = raised

-- another order comes and goes
abbrev pub traffic : List Op
traffic = issue_op "k2" 6 everywhere "ops" (some "broken") ∷ lift_op "k2" 7 ∷ []

issued-halts_example : is_some (matches no_predicates (run killed traffic) somebody) ≡ true
issued-halts_example =
    issued-halts no_predicates no_orders "k1" 5 everywhere "ops" somebody traffic fits
      (refl, (refl, tt))
