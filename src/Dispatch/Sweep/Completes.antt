-- ===== src/Dispatch/Sweep/Completes.antt =====
-- The sweep reaches its end.
use stonefold.Prelude.{
  Option-cases, leb, all, ◌+◌, ℕ, ◌≡◌, refl, ◌∙◌, String, Bool, true, false, inl, inr, none, some,
  List, [], ◌∷◌, str_eq, eq_iff, arith, All, any,
}
use stonefold.Models.Records.{ReleaseContract}
use stonefold.Outbox.{PendingAction, is_pending_approval, effective_contracts}
use stonefold.Outbox.Release.{apply_release}
use stonefold.Outbox.Release.Accepts.{apply_release-accepts}
use stonefold.Outbox.Store.{OutboxStore, row_at, settle, approve, list_by_state}
use stonefold.Outbox.Store.Listed.{IsKeyed, IsDistinct, AreApart, listed-All, listed-AreApart}
use stonefold.Dispatch.Sweep.{
  last_instant, Deed, leave, overflows, expire, credit_timeout, deed, lapsed, timed_out, Swept,
  stored_or, cancel_hold, sweep_row, sweep_rows, then_sweep, sweep_expired_holds,
}
use stonefold.Dispatch.Sweep.Expiry.{Released-cases, sweep_row-spares}

-- every contract of the row has its deadline, if it has one, before the last instant
abbrev pub in_calendar : ℕ → ReleaseContract → Bool
in_calendar created_at c = elim c.timeout [
  | none ↦ true
  | some t ↦ leb (created_at + t) last_instant
]

-- the gate of a credit is one of the contracts'
abbrev is_declared : List ReleaseContract → Deed → Bool
is_declared cs leave = true
is_declared cs overflows = false
is_declared cs (expire gate) = true
is_declared cs (credit_timeout gate) = any (λ (c : ReleaseContract). str_eq c.gate gate) cs

is_declared-more :
    (c : ReleaseContract) (cs : List ReleaseContract) (d : Deed)
    → is_declared cs d ≡ true
    → is_declared (c ∷ cs) d ≡ true
is_declared-more c cs leave h = refl
is_declared-more c cs overflows h = absurd (ground (arith, h))
is_declared-more c cs (expire gate) h = refl
is_declared-more c cs (credit_timeout gate) h = ground (arith, h)

timed_out-is_declared :
    (now created_at : ℕ) (cs : List ReleaseContract)
    → all (in_calendar created_at) cs ≡ true
    → is_declared cs (timed_out now created_at cs) ≡ true
unfolding timed_out
timed_out-is_declared now created_at [] h = refl
timed_out-is_declared now created_at (c ∷ cs) h = elim (Option-cases c.timeout) [
  | inl e ↦
      let more =
        is_declared-more c cs (timed_out now created_at cs)
          (timed_out-is_declared now created_at cs (ground (arith, h))) in
      ground (arith, more, e)
  | inr (t, e) ↦
      let more =
        is_declared-more c cs (timed_out now created_at cs)
          (timed_out-is_declared now created_at cs (ground (arith, h))) in
      let same = (eq_iff c.gate c.gate).1 refl in ground (arith, more, same, h, e)
]

deed-is_declared :
    (now : ℕ) (row : PendingAction)
    → all (in_calendar row.created_at) (effective_contracts row) ≡ true
    → is_declared (effective_contracts row) (deed now row) ≡ true
unfolding deed lapsed
deed-is_declared now row h =
    ground (arith, timed_out-is_declared now row.created_at (effective_contracts row) h)

-- What the sweep may credit: a held row, of an actor who is not called as the sweep is.
pub record IsCreditable (q : PendingAction) : Type 0 where
  pub held : is_pending_approval q.state ≡ true
  pub timed : all (in_calendar q.created_at) (effective_contracts q) ≡ true
  pub stranger : str_eq "system:timeout" q.actor.id ≡ false

sweep_row-completes :
    (wall : ℕ) (q : PendingAction) (d : Deed) (s : OutboxStore)
    → row_at s.rows q.id ≡ some q
    → IsCreditable q
    → is_declared (effective_contracts q) d ≡ true
    → (sweep_row wall q d s).error ≡ none
unfolding sweep_row cancel_hold stored_or settle approve
sweep_row-completes wall q leave s there c h = refl
sweep_row-completes wall q overflows s there c h = absurd (ground (arith, h))
sweep_row-completes wall q (expire gate) s there c h = rw (settle, there) refl
sweep_row-completes wall q (credit_timeout gate) s there c h =
    elim (Released-cases (apply_release q "system:timeout" (some gate))) [
      | inl (e, f) ↦
          absurd
            (ground (arith, f, apply_release-accepts q "system:timeout" gate c.held h c.stranger))
      | inr (r, f) ↦ rw (approve, there, f) refl
    ]

abbrev AreStaged : OutboxStore → List PendingAction → Type 0
AreStaged s = All (λ (q : PendingAction). row_at s.rows q.id ≡ some q)

AreStaged-after :
    (wall : ℕ) (q : PendingAction) (d : Deed) (s : OutboxStore) (rows : List PendingAction)
    → All (λ (r : PendingAction). str_eq q.id r.id ≡ false) rows
    → AreStaged s rows
    → AreStaged (sweep_row wall q d s).store rows
AreStaged-after wall q d s [] apart staged = tt
AreStaged-after wall q d s (r ∷ rows) (other, apart) (there, staged) =
    (sweep_row-spares wall q d s r.id other ∙ there, AreStaged-after wall q d s rows apart staged)

then_sweep-error :
    (first rest : Swept)
    → first.error ≡ none
    → rest.error ≡ none
    → (then_sweep first rest).error ≡ none
unfolding then_sweep
then_sweep-error first rest a b = ground (arith, a, b)

sweep_rows-completes :
    (now wall : ℕ) (rows : List PendingAction) (s : OutboxStore)
    → AreApart rows
    → AreStaged s rows
    → All IsCreditable rows
    → (sweep_rows now wall rows s).error ≡ none
unfolding sweep_rows AreApart
sweep_rows-completes now wall [] s apart staged c = refl
sweep_rows-completes now wall (q ∷ rows) s (other, apart) (there, staged) (c, cs) =
    let first = sweep_row wall q (deed now q) s in
    then_sweep-error first (sweep_rows now wall rows first.store)
      (sweep_row-completes wall q (deed now q) s there c (deed-is_declared now q c.timed))
      (sweep_rows-completes now wall rows first.store apart
        (AreStaged-after wall q (deed now q) s rows other staged) cs)

-- A sweep reaches its end in a store whose rows stand under their own tickets, each listed once,
-- where no row's actor is called "system:timeout" and no contract's deadline lies behind the year 9999.
pub sweep-completes :
    (now wall : ℕ) (s : OutboxStore)
    → IsKeyed s
    → IsDistinct s.order
    → ((id : String) (row : PendingAction)
        → row_at s.rows id ≡ some row
        → str_eq "system:timeout" row.actor.id ≡ false)
    → ((id : String) (row : PendingAction)
        → row_at s.rows id ≡ some row
        → all (in_calendar row.created_at) (effective_contracts row) ≡ true)
    → (sweep_expired_holds now wall s).error ≡ none
unfolding sweep_expired_holds
sweep-completes now wall s keyed distinct strangers timely =
    sweep_rows-completes now wall (list_by_state s is_pending_approval) s
      (listed-AreApart s is_pending_approval keyed distinct)
      (listed-All (λ q. row_at s.rows q.id ≡ some q) s is_pending_approval keyed
        (λ q there held. there))
      (listed-All IsCreditable s is_pending_approval keyed (λ q there held. record {
        held = held;
        timed = timely q.id q there;
        stranger = strangers q.id q there;
      }))
