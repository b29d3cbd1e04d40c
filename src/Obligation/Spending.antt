-- ===== src/Obligation/Spending.antt =====
-- A line is spent once, by one intent, with one receipt; and it is reserved by one intent at a time.
use stonefold.Prelude.{
  ℕ, String, ◌≡◌, refl, true, false, Option, none, some, List, [], ◌∷◌, if◌then◌else◌, str_eq,
  eq_iff, arith, Bool-cases, inl, inr, is_some,
}
use stonefold.Values.{Fields}
use stonefold.Obligation.{
  Registry, LineState, line_at, set_line, mark, expires, expire_lazily, expire_all, freed, free_for,
  held_by, reserve, consume, release_line, release,
}

pub line_at-set_line :
    (lines : List (String × LineState)) (ref j : String) (st : LineState)
    → line_at (set_line lines ref st) j ≡ (if str_eq ref j then st else line_at lines j)
unfolding line_at set_line
line_at-set_line [] ref j st = refl
line_at-set_line ((r, old) ∷ rest) ref j st =
    ground (arith, eq_iff r ref, eq_iff r j, eq_iff ref j, line_at-set_line rest ref j st)

pub lines-mark : (s : Registry) (ref state : String) → (mark s ref state).lines ≡ s.lines
unfolding mark
lines-mark s ref state = ground arith

-- What the registry holds of a line that `intent` has consumed.
pub record IsSpent (lines : List (String × LineState)) (ref intent receipt : String) : Type 0 where
  pub by_intent : (line_at lines ref).consumed_by ≡ some intent
  pub with_receipt : (line_at lines ref).receipt ≡ some receipt

pub expires-open :
    (s : Registry) (st : LineState) (now : ℕ) → expires s st now ≡ true → st.consumed_by ≡ none
unfolding expires
expires-open s st now h = ground arith

pub not_some : {A : Type 0} (o : Option A) → is_some o ≡ false → o ≡ none
not_some o h = ground arith

module _ (ref intent receipt : String) where
  -- a write to a line that nobody has consumed leaves a spent line alone
  IsSpent-set_line :
      (lines : List (String × LineState)) (r : String) (st : LineState)
      → (line_at lines r).consumed_by ≡ none
      → IsSpent lines ref intent receipt
      → IsSpent (set_line lines r st) ref intent receipt
  IsSpent-set_line lines r st open_ h = record {
    by_intent = ground (arith, line_at-set_line lines r ref st, h.by_intent, eq_iff r ref);
    with_receipt =
        ground (arith, line_at-set_line lines r ref st, h.by_intent, h.with_receipt, eq_iff r ref);
  }

  pub IsSpent-expire :
      (s : Registry) (r : String) (now : ℕ)
      → IsSpent s.lines ref intent receipt
      → IsSpent (expire_lazily s r now).lines ref intent receipt
  unfolding expire_lazily
  IsSpent-expire s r now h =
      let st = line_at s.lines r in
      elim (Bool-cases (expires s st now)) [
        | inl e ↦
            rw e (rw lines-mark (IsSpent-set_line s.lines r (freed st) (expires-open s st now e) h))
        | inr e ↦ rw e h
      ]

  IsSpent-reserve :
      (s : Registry) (r i : String) (now : ℕ)
      → IsSpent s.lines ref intent receipt
      → IsSpent (reserve s r i now).0.lines ref intent receipt
  unfolding reserve
  IsSpent-reserve s r i now h =
      let s' = expire_lazily s r now in
      let st = line_at s'.lines r in
      let h' = IsSpent-expire s r now h in
      elim (Bool-cases (is_some st.consumed_by)) [
        | inl e ↦ rw e h'
        | inr e ↦ elim (Bool-cases (free_for st.reserved_by i)) [
          | inl f ↦
              rw (e, f)
                (rw lines-mark (IsSpent-set_line s'.lines r _ (not_some st.consumed_by e) h'))
          | inr f ↦ rw (e, f) h'
        ]
      ]

  IsSpent-consume :
      (s : Registry) (r i : String) (now : ℕ) (rcpt : String)
      → IsSpent s.lines ref intent receipt
      → IsSpent (consume s r i now rcpt).0.lines ref intent receipt
  unfolding consume
  IsSpent-consume s r i now rcpt h =
      let s' = expire_lazily s r now in
      let st = line_at s'.lines r in
      let h' = IsSpent-expire s r now h in
      elim (Bool-cases (is_some st.consumed_by)) [
        | inl e ↦ rw e h'
        | inr e ↦ elim (Bool-cases (free_for st.reserved_by i)) [
          | inl f ↦
              rw (e, f)
                (rw lines-mark (IsSpent-set_line s'.lines r _ (not_some st.consumed_by e) h'))
          | inr f ↦ rw (e, f) h'
        ]
      ]

  IsSpent-release :
      (s : Registry) (r i : String) (now : ℕ)
      → IsSpent s.lines ref intent receipt
      → IsSpent (release s r i now).0.lines ref intent receipt
  unfolding release
  IsSpent-release s r i now h =
      let s' = expire_lazily s r now in
      let st = line_at s'.lines r in
      let h' = IsSpent-expire s r now h in
      elim (Bool-cases (is_some st.consumed_by)) [
        | inl e ↦ rw (e, release_line) (ground (arith, h'))
        | inr e ↦ elim (Bool-cases (held_by st.reserved_by i)) [
          | inl f ↦
              rw (e, f)
                (rw lines-mark (IsSpent-set_line s'.lines r _ (not_some st.consumed_by e) h'))
          | inr f ↦ rw (e, f) h'
        ]
      ]

-- The calls that intents and queries make of the registry, each with the adapter's clock.
pub data Op : Type 0 where
  query_op : ℕ → Op
  reserve_op release_op : String → String → ℕ → Op
  consume_op : String → String → ℕ → String → Op

unfoldable pub step : Registry → Op → Registry
step s (query_op now) = expire_all s s.records now
step s (reserve_op ref intent now) = (reserve s ref intent now).0
step s (release_op ref intent now) = (release s ref intent now).0
step s (consume_op ref intent now receipt) = (consume s ref intent now receipt).0

unfoldable pub run : Registry → List Op → Registry
run s [] = s
run s (op ∷ ops) = run (step s op) ops

module _ (ref intent receipt : String) where
  IsSpent-expire_all :
      (s : Registry) (records : List (String × Fields)) (now : ℕ)
      → IsSpent s.lines ref intent receipt
      → IsSpent (expire_all s records now).lines ref intent receipt
  unfolding expire_all
  IsSpent-expire_all s [] now h = h
  IsSpent-expire_all s ((r, fields) ∷ rest) now h =
      IsSpent-expire_all (expire_lazily s r now) rest now
        (IsSpent-expire ref intent receipt s r now h)

  IsSpent-step :
      (s : Registry) (op : Op)
      → IsSpent s.lines ref intent receipt
      → IsSpent (step s op).lines ref intent receipt
  unfolding step
  IsSpent-step s (query_op now) h = IsSpent-expire_all s s.records now h
  IsSpent-step s (reserve_op r i now) h = IsSpent-reserve ref intent receipt s r i now h
  IsSpent-step s (release_op r i now) h = IsSpent-release ref intent receipt s r i now h
  IsSpent-step s (consume_op r i now rcpt) h = IsSpent-consume ref intent receipt s r i now rcpt h

  pub IsSpent-run :
      (s : Registry) (ops : List Op)
      → IsSpent s.lines ref intent receipt
      → IsSpent (run s ops).lines ref intent receipt
  unfolding run
  IsSpent-run s [] h = h
  IsSpent-run s (op ∷ ops) h = IsSpent-run (step s op) ops (IsSpent-step s op h)
