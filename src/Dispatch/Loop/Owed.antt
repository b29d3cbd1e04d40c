-- ===== src/Dispatch/Loop/Owed.antt =====
-- What the release of rows leaves: which rows still hold a claim, one row at a time.
use stonefold.Prelude.{
  ◌≡◌, refl, sym, String, Bool, true, false, not, Bool-cases, Option-cases, inl, inr, some, List,
  [], ◌∷◌, ◌&&◌, eq_iff, arith, contains, is_some, All,
}
use mathlib.Core.Path.{subst}
use stonefold.Models.Records.{ObligationClaim}
use stonefold.Outbox.{PendingAction}
use stonefold.Outbox.Store.Listed.{IsDistinct}
use stonefold.Dispatch.{Worker}
use stonefold.Dispatch.Service.{release_claim, release_rows}

-- the row holds a claim that was not released
abbrev pub is_owed : List String → PendingAction → Bool
is_owed done row = is_some row.obligation && not (contains done row.id)

-- no claim is left on the rows
abbrev pub AreFree : List String → List PendingAction → Type 0
AreFree done = All (λ (row : PendingAction). is_owed done row ≡ false)

pub data IsOwed (done : List String) (row : PendingAction) : Type 0 where
  settled : is_owed done row ≡ false → IsOwed done row
  owed :
      (claim : ObligationClaim)
      → row.obligation ≡ some claim
      → contains done row.id ≡ false
      → IsOwed done row

pub owed-cases : (done : List String) (row : PendingAction) → IsOwed done row
owed-cases done row = elim (Option-cases row.obligation) [
  | inl e ↦ settled (rw e refl)
  | inr (claim, e) ↦ elim (Bool-cases (contains done row.id)) [
    | inl c ↦ settled (rw (e, c) refl)
    | inr c ↦ owed claim e c
  ]
]

module _ {W : Type 0} (d : Worker W) where
  abbrev pub left : List PendingAction → List String → W → List String
  left rows done w = (release_rows d rows done w).released

  abbrev pub end_of : List PendingAction → List String → W → W
  end_of rows done w = (release_rows d rows done w).world

  module _ (row : PendingAction) (rows : List PendingAction) (done : List String) (w : W) where
    pub world-settled : is_owed done row ≡ false → end_of (row ∷ rows) done w ≡ end_of rows done w
    unfolding release_rows
    world-settled h = ground (arith, h)

    pub world-owed :
        (claim : ObligationClaim)
        → row.obligation ≡ some claim
        → contains done row.id ≡ false
        → end_of (row ∷ rows) done w ≡ end_of rows (row.id ∷ done) (release_claim d claim w)
    unfolding release_rows
    world-owed claim e c = ground (arith, e, c)

    pub left-settled : is_owed done row ≡ false → left (row ∷ rows) done w ≡ left rows done w
    unfolding release_rows
    left-settled h = ground (arith, h)

    pub left-owed :
        (claim : ObligationClaim)
        → row.obligation ≡ some claim
        → contains done row.id ≡ false
        → left (row ∷ rows) done w ≡ left rows (row.id ∷ done) (release_claim d claim w)
    unfolding release_rows
    left-owed claim e c = ground (arith, e, c)

  left-keeps :
      (rows : List PendingAction) (done : List String) (w : W) (id : String)
      → contains done id ≡ true
      → contains (left rows done w) id ≡ true
  unfolding release_rows
  left-keeps [] done w id h = h
  left-keeps (row ∷ rows) done w id h = elim (owed-cases done row) [
    | settled free ↦ rw (left-settled row rows done w free) (left-keeps rows done w id h)
    | owed claim e c ↦
        rw (left-owed row rows done w claim e c)
          (left-keeps rows (row.id ∷ done) (release_claim d claim w) id (ground (arith, h)))
  ]

  pub left-AreFree :
      (rows : List PendingAction) (done : List String) (w : W) → AreFree (left rows done w) rows
  left-AreFree [] done w = tt
  left-AreFree (row ∷ rows) done w = elim (owed-cases done row) [
    | settled free ↦
        subst (λ l. AreFree l (row ∷ rows)) (sym (left-settled row rows done w free))
          (ground (arith, free, left-keeps rows done w row.id), left-AreFree rows done w)
    | owed claim e c ↦
        let w' = release_claim d claim w in
        let same = (eq_iff row.id row.id).1 refl in
        let kept = left-keeps rows (row.id ∷ done) w' row.id (ground (arith, same)) in
        subst (λ l. AreFree l (row ∷ rows)) (sym (left-owed row rows done w claim e c))
          (ground (arith, kept), left-AreFree rows (row.id ∷ done) w')
  ]

  pub left-IsDistinct :
      (rows : List PendingAction) (done : List String) (w : W)
      → IsDistinct done
      → IsDistinct (left rows done w)
  unfolding release_rows IsDistinct
  left-IsDistinct [] done w h = h
  left-IsDistinct (row ∷ rows) done w h = elim (owed-cases done row) [
    | settled free ↦ rw (left-settled row rows done w free) (left-IsDistinct rows done w h)
    | owed claim e c ↦
        rw (left-owed row rows done w claim e c)
          (left-IsDistinct rows (row.id ∷ done) (release_claim d claim w) (c, h))
  ]

  pub left-more :
      (rows : List PendingAction) (done : List String) (w : W) (qs : List PendingAction)
      → AreFree done qs
      → AreFree (left rows done w) qs
  left-more rows done w [] h = tt
  left-more rows done w (q ∷ qs) (h, hs) =
      (ground (arith, h, left-keeps rows done w q.id), left-more rows done w qs hs)
