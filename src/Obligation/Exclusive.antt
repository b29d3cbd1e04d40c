-- ===== src/Obligation/Exclusive.antt =====
-- What one intent's success at the registry says of every other intent's calls.
use stonefold.Prelude.{
  ℕ, String, ◌≡◌, refl, true, false, Option, none, some, List, if◌then◌else◌, str_eq, eq_iff, arith,
  Bool-cases, inl, inr, is_some,
}
use stonefold.Obligation.{
  Registry, LineState, line_at, set_line, mark, expires, expire_lazily, free_for, held_by, is_due,
  ReserveOutcome, ReleaseOutcome, consumed, already_consumed, reserve_line, reserve, consume_line,
  consume, release_line, release,
}
use stonefold.Obligation.Spending.{
  IsSpent, IsSpent-run, Op, run, line_at-set_line, lines-mark, IsSpent-expire, not_some,
}

written_line :
    (lines : List (String × LineState)) (ref : String) (st : LineState)
    → line_at (set_line lines ref st) ref ≡ st
written_line lines ref st = ground (arith, line_at-set_line lines ref ref st, eq_iff ref ref)

held_by-some : (o : Option String) (i : String) → held_by o i ≡ true → o ≡ some i
held_by-some none i h = absurd (ground arith)
held_by-some (some j) i h = ground (arith, eq_iff j i)

-- the identity that a winning consume leaves in the line
consume_line-IsSpent :
    (s : Registry) (ref intent receipt r : String)
    → (consume_line s ref intent receipt (line_at s.lines ref)).1 ≡ consumed (some r)
    → IsSpent (consume_line s ref intent receipt (line_at s.lines ref)).0.lines ref intent r
unfolding consume_line
consume_line-IsSpent s ref intent receipt r won =
    let st = line_at s.lines ref in
    elim (Bool-cases (is_some st.consumed_by)) [
      | inl e ↦ elim (Bool-cases (held_by st.consumed_by intent)) [
        | inl f ↦
            let k = held_by-some st.consumed_by intent f in
            rw e (record { by_intent = k; with_receipt = ground arith })
        | inr f ↦ absurd (ground arith)
      ]
      | inr e ↦ elim (Bool-cases (free_for st.reserved_by intent)) [
        | inl f ↦
            rw (e, f)
              (rw lines-mark (record {
                by_intent = rw (written_line s.lines ref _) refl;
                with_receipt = rw (written_line s.lines ref _) (ground arith);
              }))
        | inr f ↦ absurd (ground arith)
      ]
    ]

spent_line-consume :
    (s : Registry) (ref i r j receipt : String)
    → IsSpent s.lines ref i r
    → (consume_line s ref j receipt (line_at s.lines ref)).1
      ≡ (if str_eq i j then consumed (some r) else already_consumed)
unfolding consume_line
spent_line-consume s ref i r j receipt h = rw (h.by_intent, h.with_receipt) refl

consume-IsSpent :
    (s : Registry) (ref i : String) (now : ℕ) (receipt r : String)
    → (consume s ref i now receipt).1 ≡ consumed (some r)
    → IsSpent (consume s ref i now receipt).0.lines ref i r
unfolding consume
consume-IsSpent s ref i now receipt r won =
    consume_line-IsSpent (expire_lazily s ref now) ref i receipt r won

IsSpent-answer :
    (ref i r j : String) (now : ℕ) (receipt : String) (s : Registry)
    → IsSpent s.lines ref i r
    → (consume s ref j now receipt).1 ≡ (if str_eq i j then consumed (some r) else already_consumed)
unfolding consume
IsSpent-answer ref i r j now receipt s h =
    spent_line-consume (expire_lazily s ref now) ref i r j receipt
      (IsSpent-expire ref i r s ref now h)

-- Once a consume of a line has succeeded with a receipt, then after any run of queries,
-- reservations, releases and consumes by anyone, a further consume of the line succeeds for the
-- intent that won alone, and gives that same receipt.
pub no_double_spend :
    (s : Registry) (ref i j receipt receipt' r : String) (now later : ℕ) (ops : List Op)
    (out : Option String)
    → (consume s ref i now receipt).1 ≡ consumed (some r)
    → (consume (run (consume s ref i now receipt).0 ops) ref j later receipt').1 ≡ consumed out
    → (j ≡ i) × (out ≡ some r)
no_double_spend s ref i j receipt receipt' r now later ops out won again =
    let spent =
      IsSpent-run ref i r (consume s ref i now receipt).0 ops
        (consume-IsSpent s ref i now receipt r won) in
    let told =
      IsSpent-answer ref i r j later receipt' (run (consume s ref i now receipt).0 ops) spent in
    ground (arith, eq_iff i j, told)

ttl-mark : (s : Registry) (ref state : String) → (mark s ref state).ttl ≡ s.ttl
unfolding mark
ttl-mark s ref state = ground arith

-- What the registry holds of a line that `intent` has reserved.
record IsReserved (s : Registry) (ref intent : String) (at : ℕ) (ttl : Option ℕ) : Type 0 where
  lasting : s.ttl ≡ ttl
  by_intent : (line_at s.lines ref).reserved_by ≡ some intent
  since : (line_at s.lines ref).reserved_at ≡ some at
  unspent : (line_at s.lines ref).consumed_by ≡ none

reserve_line-IsReserved :
    (s : Registry) (ref intent : String) (now : ℕ)
    → (reserve_line s ref intent now (line_at s.lines ref)).1 ≡ ReserveOutcome.reserved
    → IsReserved (reserve_line s ref intent now (line_at s.lines ref)).0 ref intent now s.ttl
unfolding reserve_line
reserve_line-IsReserved s ref intent now won =
    let st = line_at s.lines ref in
    elim (Bool-cases (is_some st.consumed_by)) [
      | inl e ↦ absurd (ground arith)
      | inr e ↦ elim (Bool-cases (free_for st.reserved_by intent)) [
        | inl f ↦
            rw (e, f)
              (record {
                lasting = rw ttl-mark refl;
                by_intent = rw lines-mark (rw (written_line s.lines ref _) refl);
                since = rw lines-mark (rw (written_line s.lines ref _) refl);
                unspent =
                    rw lines-mark (rw (written_line s.lines ref _) (not_some st.consumed_by e));
              })
        | inr f ↦ absurd (ground arith)
      ]
    ]

IsReserved-stays :
    (s : Registry) (ref i : String) (at later : ℕ) (ttl : Option ℕ)
    → IsReserved s ref i at ttl
    → is_due ttl (some at) later ≡ false
    → expire_lazily s ref later ≡ s
unfolding expire_lazily expires
IsReserved-stays s ref i at later ttl h live =
    rw (h.by_intent, h.unspent, h.since, h.lasting, live) refl

reserve-IsReserved :
    (s : Registry) (ref intent : String) (now : ℕ)
    → (reserve s ref intent now).1 ≡ ReserveOutcome.reserved
    → IsReserved (reserve s ref intent now).0 ref intent now (expire_lazily s ref now).ttl
unfolding reserve
reserve-IsReserved s ref intent now won =
    reserve_line-IsReserved (expire_lazily s ref now) ref intent now won

ttl-expire_lazily : (s : Registry) (ref : String) (now : ℕ) → (expire_lazily s ref now).ttl ≡ s.ttl
unfolding expire_lazily
ttl-expire_lazily s ref now = elim (Bool-cases (expires s (line_at s.lines ref) now)) [
  | inl e ↦ rw e (rw ttl-mark refl)
  | inr e ↦ rw e refl
]

module _ (s : Registry) (ref i j : String) (at later : ℕ) (ttl : Option ℕ) where
  reserved-reserve :
      IsReserved s ref i at ttl
      → is_due ttl (some at) later ≡ false
      → str_eq i j ≡ false
      → (reserve s ref j later).1 ≡ ReserveOutcome.already_reserved
  unfolding reserve reserve_line
  reserved-reserve h live other =
      rw (IsReserved-stays s ref i at later ttl h live) (rw (h.unspent, h.by_intent, other) refl)

  reserved-consume :
      (receipt : String)
      → IsReserved s ref i at ttl
      → is_due ttl (some at) later ≡ false
      → str_eq i j ≡ false
      → (consume s ref j later receipt).1 ≡ already_consumed
  unfolding consume consume_line
  reserved-consume receipt h live other =
      rw (IsReserved-stays s ref i at later ttl h live) (rw (h.unspent, h.by_intent, other) refl)

  reserved-release :
      IsReserved s ref i at ttl
      → is_due ttl (some at) later ≡ false
      → str_eq i j ≡ false
      → (release s ref j later ≡ (s, ReleaseOutcome.not_held))
  unfolding release release_line
  reserved-release h live other =
      rw (IsReserved-stays s ref i at later ttl h live) (rw (h.unspent, h.by_intent, other) refl)

-- While a reservation lives (its time to live has not run out since it was taken), another intent
-- can neither reserve nor consume the line, and its release changes nothing.
pub reservation-is_exclusive :
    (s : Registry) (ref i j receipt : String) (now later : ℕ)
    → (reserve s ref i now).1 ≡ ReserveOutcome.reserved
    → is_due s.ttl (some now) later ≡ false
    → str_eq i j ≡ false
    → let s' = (reserve s ref i now).0 in
      ((reserve s' ref j later).1 ≡ ReserveOutcome.already_reserved)
      × ((consume s' ref j later receipt).1 ≡ already_consumed)
      × (release s' ref j later ≡ (s', ReleaseOutcome.not_held))
reservation-is_exclusive s ref i j receipt now later won live other =
    let s' = (reserve s ref i now).0 in
    let ttl = (expire_lazily s ref now).ttl in
    let h = reserve-IsReserved s ref i now won in
    let live' : is_due ttl (some now) later ≡ false = rw (ttl-expire_lazily s ref now) live in
    (
      reserved-reserve s' ref i j now later ttl h live' other,
      reserved-consume s' ref i j now later ttl receipt h live' other,
      reserved-release s' ref i j now later ttl h live' other,
    )
