-- ===== src/Outbox/Store/Listed.antt =====
-- What `list_by_state` lists.
use stonefold.Prelude.{
  String, ◌≡◌, refl, sym, Bool, Bool-cases, Option-cases, inl, inr, true, false, some, List, [],
  ◌∷◌, str_eq, eq_iff, arith, All, any, contains,
}
use mathlib.Core.Path.{subst}
use stonefold.Outbox.{PendingState, PendingAction}
use stonefold.Outbox.Store.{OutboxStore, row_at, list_rows, list_by_state}

-- Every row carries the ticket under which it is kept, as `stage` keeps it.
unfoldable pub IsKeyed : OutboxStore → Type 0
IsKeyed s = (id : String) (r : PendingAction) → row_at s.rows id ≡ some r → r.id ≡ id

module _ (in_state : PendingState → Bool) (rows : List (String × PendingAction)) where
  list_rows-All :
      (P : PendingAction → Type 0) (ids : List String)
      → ((j : String) (r : PendingAction) → row_at rows j ≡ some r → in_state r.state ≡ true → P r)
      → All P (list_rows in_state rows ids)
  unfolding list_rows
  list_rows-All P [] h = tt
  list_rows-All P (j ∷ ids) h = elim (Option-cases (row_at rows j)) [
    | inl e ↦ rw (list_rows, e) (list_rows-All P ids h)
    | inr (r, e) ↦ elim (Bool-cases (in_state r.state)) [
      | inl in_it ↦ rw (list_rows, e, in_it) (h j r e in_it, list_rows-All P ids h)
      | inr out ↦ rw (list_rows, e, out) (list_rows-All P ids h)
    ]
  ]

  list_rows-any :
      (ids : List String) (id : String) (row : PendingAction)
      → row_at rows id ≡ some row
      → row.id ≡ id
      → in_state row.state ≡ true
      → contains ids id ≡ true
      → any (λ (q : PendingAction). str_eq q.id id) (list_rows in_state rows ids) ≡ true
  unfolding list_rows
  list_rows-any [] id row there same in_it listed = absurd (ground arith)
  list_rows-any (j ∷ ids) id row there same in_it listed = elim (Bool-cases (str_eq j id)) [
    | inl e ↦ rw ((eq_iff j id).0 e, list_rows, there, in_it, (eq_iff row.id id).1 same) refl
    | inr e ↦
        let rest = list_rows-any ids id row there same in_it (ground (arith, e, listed)) in
        elim (Option-cases (row_at rows j)) [
          | inl n ↦ rw (list_rows, n) rest
          | inr (r, n) ↦ elim (Bool-cases (in_state r.state)) [
            | inl in_r ↦ ground (arith, rest, n, in_r)
            | inr out ↦ rw (list_rows, n, out) rest
          ]
        ]
  ]

-- A statement of every row of the state, kept under its own id, is one of every row that is listed.
pub listed-All :
    (P : PendingAction → Type 0) (s : OutboxStore) (in_state : PendingState → Bool)
    → IsKeyed s
    → ((r : PendingAction) → row_at s.rows r.id ≡ some r → in_state r.state ≡ true → P r)
    → All P (list_by_state s in_state)
unfolding list_by_state IsKeyed
listed-All P s in_state keyed h =
    list_rows-All in_state s.rows P s.order
      (λ j r e in_it. h r (subst (λ i. row_at s.rows i ≡ some r) (sym (keyed j r e)) e) in_it)

pub listed-any :
    (s : OutboxStore) (in_state : PendingState → Bool) (id : String) (row : PendingAction)
    → IsKeyed s
    → row_at s.rows id ≡ some row
    → in_state row.state ≡ true
    → contains s.order id ≡ true
    → any (λ (q : PendingAction). str_eq q.id id) (list_by_state s in_state) ≡ true
unfolding list_by_state IsKeyed
listed-any s in_state id row keyed there in_it listed =
    list_rows-any in_state s.rows s.order id row there (keyed id row there) in_it listed

-- no text stands twice
unfoldable pub IsDistinct : List String → Type 0
IsDistinct [] = Unit
IsDistinct (id ∷ ids) = (contains ids id ≡ false) × IsDistinct ids

-- no two of the rows have one id
unfoldable pub AreApart : List PendingAction → Type 0
AreApart [] = Unit
AreApart (q ∷ rows) = All (λ (r : PendingAction). str_eq q.id r.id ≡ false) rows × AreApart rows

module _ (s : OutboxStore) (in_state : PendingState → Bool) (keyed : IsKeyed s) where
  list_rows-Others :
      (ids : List String) (id : String)
      → contains ids id ≡ false
      → All (λ (r : PendingAction). str_eq id r.id ≡ false) (list_rows in_state s.rows ids)
  unfolding list_rows IsKeyed
  list_rows-Others [] id h = tt
  list_rows-Others (j ∷ ids) id h =
      let rest = list_rows-Others ids id (ground (arith, h)) in
      elim (Option-cases (row_at s.rows j)) [
        | inl e ↦ rw (list_rows, e) rest
        | inr (r, e) ↦ elim (Bool-cases (in_state r.state)) [
          | inl in_it ↦
              rw (list_rows, e, in_it)
                (ground (arith, h, keyed j r e, eq_iff j id, eq_iff id j, eq_iff id r.id), rest)
          | inr out ↦ rw (list_rows, e, out) rest
        ]
      ]

  list_rows-AreApart :
      (ids : List String) → IsDistinct ids → AreApart (list_rows in_state s.rows ids)
  unfolding list_rows IsKeyed IsDistinct AreApart
  list_rows-AreApart [] h = tt
  list_rows-AreApart (j ∷ ids) (h, hs) = elim (Option-cases (row_at s.rows j)) [
    | inl e ↦ rw (list_rows, e) (list_rows-AreApart ids hs)
    | inr (r, e) ↦ elim (Bool-cases (in_state r.state)) [
      | inl in_it ↦
          rw (list_rows, e, in_it)
            (rw (keyed j r e) (list_rows-Others ids j h), list_rows-AreApart ids hs)
      | inr out ↦ rw (list_rows, e, out) (list_rows-AreApart ids hs)
    ]
  ]

pub listed-AreApart :
    (s : OutboxStore) (in_state : PendingState → Bool)
    → IsKeyed s
    → IsDistinct s.order
    → AreApart (list_by_state s in_state)
unfolding list_by_state
listed-AreApart s in_state keyed distinct = list_rows-AreApart s in_state keyed s.order distinct
