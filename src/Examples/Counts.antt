-- ===== src/Examples/Counts.antt =====
-- Spending counted over a window of 60, and what a shorter window on the same key forgets.
use stonefold.Prelude.{ℕ, ◌+◌, ◌≡◌, refl, arith, String, List, [], ◌∷◌}
use stonefold.Counters.{hit, add, prune_and_record, events_at, set_events}
use stonefold.Counters.Window.{Use, after, windowed-is_exact, all_events}

abbrev total : List ℕ → ℕ
total [] = 0
total (x ∷ xs) = x + total xs

abbrev spend : String → ℕ → ℕ → ℕ → Use ℕ
spend key amount now window_s = record {
  key = key;
  amount = amount;
  now = now;
  window_s = window_s;
}

-- the last first: 9 at 100, of which the event at 20 is pruned, then 5 at 70 and 7 at 20
abbrev spent : List (Use ℕ)
spent =
    spend "a:spendLimit:s" 9 100 60
    ∷ spend "b:spendLimit:s" 4 200 10
    ∷ spend "a:spendLimit:s" 5 70 60
    ∷ spend "a:spendLimit:s" 7 20 60
    ∷ []

windowed-is_exact_example :
    ((hit 1 (after spent) "a:spendLimit:s" 120 60).1 ≡ 3)
    × ((add total (after spent) "a:spendLimit:s" 2 120 60).1 ≡ 16)
unfolding all_events
windowed-is_exact_example = windowed-is_exact 1 total spent "a:spendLimit:s" 2 120 60 (
  record { is_earlier = λ e. omega arith; is_wider = λ e. omega arith },
  (
    record { is_earlier = λ e. absurd (ground arith); is_wider = λ e. absurd (ground arith) },
    (
      record { is_earlier = λ e. omega arith; is_wider = λ e. omega arith },
      (record { is_earlier = λ e. omega arith; is_wider = λ e. omega arith }, tt),
    ),
  ),
)

-- An action whose limit has a window of 10 spends in the same session, and 90 is forgotten.
forgotten :
    (add total
      (after (spend "a:spendLimit:s" 1 50 10 ∷ spend "a:spendLimit:s" 90 20 60 ∷ []))
      "a:spendLimit:s"
      2
      60
      60).1
    ≡ 3
unfolding add prune_and_record after events_at set_events
forgotten = refl
