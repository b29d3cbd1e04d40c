-- ===== src/Dispatch/Sweep/Holds.antt =====
-- The sweep over the whole store: what becomes of a lapsed hold, and of a row that is not held.
use stonefold.Prelude.{
  List, [], ◌∷◌, ◌++◌, all, find, not, ℕ, ◌≡◌, refl, sym, ap, ◌∙◌, String, true, false, Bool-cases,
  inl, inr, Option, none, some, str_eq, eq_iff, arith, contains, leb,
}
use stonefold.Models.Records.{ReleaseContract}
use stonefold.Outbox.{PendingAction, satisfied, is_pending_approval, effective_contracts}
use stonefold.Outbox.Store.{OutboxStore, row_at, list_by_state}
use stonefold.Outbox.Store.Listed.{IsKeyed, listed-All, listed-any}
use stonefold.Dispatch.Sweep.{first_gate, deed, expire, lapsed, open_gate, sweep_expired_holds}
use stonefold.Dispatch.Sweep.Expiry.{IsExpired, sweep_rows-spares, sweep_rows-expires}

some_row : Option PendingAction → PendingAction → PendingAction
some_row none d = d
some_row (some r) d = r

same_row : {o : Option PendingAction} {r q : PendingAction} → o ≡ some r → o ≡ some q → r ≡ q
unfolding some_row
same_row {o} {r} e f = sym (ap (λ x. some_row x r) e) ∙ ap (λ x. some_row x r) f

deed-lapsed :
    (now : ℕ) (row : PendingAction) (expires_at : ℕ)
    → row.expires_at ≡ some expires_at
    → leb expires_at now ≡ true
    → deed now row ≡ expire (open_gate (effective_contracts row))
unfolding deed lapsed
deed-lapsed now row expires_at timed passed = rw (deed, timed, passed) refl

find-first :
    (before : List ReleaseContract) (c : ReleaseContract) (after : List ReleaseContract)
    → all satisfied before ≡ true
    → satisfied c ≡ false
    → find (λ (x : ReleaseContract). not (satisfied x)) (before ++ c ∷ after) ≡ some c
find-first [] c after paid unpaid = ground (arith, unpaid)
find-first (b ∷ before) c after paid unpaid =
    ground (arith, paid, find-first before c after, unpaid)

open_gate-first :
    (before : List ReleaseContract) (c : ReleaseContract) (after : List ReleaseContract)
    → all satisfied before ≡ true
    → satisfied c ≡ false
    → open_gate (before ++ c ∷ after) ≡ c.gate
unfolding open_gate first_gate
open_gate-first before c after paid unpaid =
    rw (open_gate, find-first before c after paid unpaid) refl

module _ (now wall : ℕ) (s : OutboxStore) (keyed : IsKeyed s) (id : String) (row : PendingAction)
    (there : row_at s.rows id ≡ some row) where
  is_row : (q : PendingAction) → row_at s.rows q.id ≡ some q → str_eq q.id id ≡ true → q ≡ row
  is_row q kept same = same_row kept (ap (row_at s.rows) ((eq_iff q.id id).0 same) ∙ there)

  -- A sweep of a store whose rows stand under their own tickets leaves every row that is not held
  -- for approval as it was, whether or not it reaches its end.
  pub sweep-spares :
      is_pending_approval row.state ≡ false
      → row_at (sweep_expired_holds now wall s).store.rows id ≡ some row
  unfolding sweep_expired_holds
  sweep-spares free =
      sweep_rows-spares now wall (list_by_state s is_pending_approval) s id (
        listed-All (λ q. str_eq q.id id ≡ false) s is_pending_approval keyed
          (λ q kept held. elim (Bool-cases (str_eq q.id id)) [
            | inl same ↦ absurd (
                ground (
                  arith,
                  held,
                  free,
                  ap (λ (r : PendingAction). is_pending_approval r.state) (is_row q kept same),
                ))
            | inr other ↦ other
          ]))
      ∙ there

  expires_under :
      (gate : String)
      → contains s.order id ≡ true
      → is_pending_approval row.state ≡ true
      → deed now row ≡ expire gate
      → (sweep_expired_holds now wall s).error ≡ none
      → IsExpired id gate (sweep_expired_holds now wall s).store
  unfolding sweep_expired_holds
  expires_under gate listed held due completes =
      sweep_rows-expires now wall (list_by_state s is_pending_approval) s id gate
        (listed-All (λ q. str_eq q.id id ≡ true → deed now q ≡ expire gate) s is_pending_approval
          keyed (λ q kept _ same. ap (deed now) (is_row q kept same) ∙ due))
        (row, there) (listed-any s is_pending_approval id row keyed there held listed) completes

  -- In a store whose rows stand under their own tickets: once a sweep has reached its end, every
  -- listed hold whose staging time has passed is cancelled, and its reason names the first of its
  -- contracts that was not satisfied, whatever the contracts' own timeouts say.
  pub sweep-expires :
      (expires_at : ℕ) (before : List ReleaseContract) (c : ReleaseContract)
      (after : List ReleaseContract)
      → contains s.order id ≡ true
      → is_pending_approval row.state ≡ true
      → row.expires_at ≡ some expires_at
      → leb expires_at now ≡ true
      → effective_contracts row ≡ before ++ c ∷ after
      → all satisfied before ≡ true
      → satisfied c ≡ false
      → (sweep_expired_holds now wall s).error ≡ none
      → IsExpired id c.gate (sweep_expired_holds now wall s).store
  sweep-expires expires_at before c after listed held timed passed split paid unpaid completes =
      let named = ap open_gate split ∙ open_gate-first before c after paid unpaid in
      expires_under c.gate listed held
        (deed-lapsed now row expires_at timed passed ∙ ap expire named) completes
