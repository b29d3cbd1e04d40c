-- ===== src/Dispatch/Loop/Halted.antt =====
-- stonefold_core/kill.py and stonefold_store/dispatch.py together: a kill order against the rows that
-- were staged before it.
use stonefold.Prelude.{
  ℕ, ◌≡◌, ◌≢◌, ap, sym, ◌∙◌, String, Bool, true, false, none, some, List, str_eq, All, arith,
}
use mathlib.Core.Path.{subst}
use stonefold.Failure.{Call}
use stonefold.Kill.{KillScope, KillTarget, scope_matches}
use stonefold.Kill.Store.{KillStore, issue, matches}
use stonefold.Kill.Store.Standing.{Op, op_id, run, issued-halts}
use stonefold.Outbox.{PendingAction}
use stonefold.Dispatch.Service.{Service, Running, from_pending}
use stonefold.Dispatch.Loop.{claim_next}
use stonefold.Dispatch.Loop.Current.{order_on, claim_next-IsCurrent}

module _ {W : Type 0} (v : Service W) (holds : String → KillTarget → Call Bool)
    (kills : W → KillStore) (wired : v.kill ≡ some (λ w. matches holds (kills w))) where
  -- From the issue of an order without a predicate, and through any run of issues and lifts of other
  -- orders, the worker whose kill store it is never claims a row that the order's scope matches,
  -- though the row was staged before the order.
  pub halted-is_not_claimed :
      (s : KillStore) (id : String) (now : ℕ) (scope : KillScope) (by_ : String) (ops : List Op)
      (r : Running W) (row : PendingAction)
      → kills r.world ≡ run (issue s id now scope by_ none).0 ops
      → All (λ op. str_eq (op_id op) id ≡ false) ops
      → scope_matches scope (from_pending row) ≡ true
      → (claim_next v none r).claimed ≢ some row
  unfolding from_pending
  halted-is_not_claimed s id now scope by_ ops r row stands others fits h =
      let c = claim_next-IsCurrent v r row h in
      let t = from_pending c.from in
      let same : from_pending row ≡ t = ap from_pending c.is_taken in
      let halted =
        issued-halts holds s id now scope by_ t ops (ap (scope_matches scope) (sym same) ∙ fits)
          others in
      let free : matches holds (kills r.world) t ≡ none =
        subst (λ k. order_on k r.world c.from ≡ none) wired c.unhalted in
      let found_none = subst (λ k. matches holds k t ≡ none) stands free in
      ground (arith, halted, found_none)
