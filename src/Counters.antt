-- ===== src/Counters.antt =====
-- stonefold_store/counters.py: the in-memory sliding-window counters of the store-backed gates.
-- An amount is of any type: the 1.0 of a hit and the float sum are arguments. Instants and
-- windows are microseconds, and `t > now - window_s` is written as `t + window_s > now`.
pub mod Window
use stonefold.Prelude.{
  ℕ, ◌+◌, String, Bool, List, [], ◌∷◌, ◌++◌, if◌then◌else◌, str_eq, ltb, keep, map, length,
}

-- `_events`: the instants and amounts of each key
pub record CounterStore (A : Type 0) : Type 0 where
  pub events : List (String × List (ℕ × A))

module _ {A : Type 0} where
  abbrev pub no_events : CounterStore A
  no_events = record { events = [] }

  -- dict.get(key, [])
  unfoldable pub events_at : List (String × List (ℕ × A)) → String → List (ℕ × A)
  events_at [] key = []
  events_at ((k, es) ∷ rest) key =
      let later = events_at rest key in if str_eq k key then es else later

  unfoldable pub set_events :
      List (String × List (ℕ × A)) → String → List (ℕ × A) → List (String × List (ℕ × A))
  set_events [] key es = (key, es) ∷ []
  set_events ((k, old) ∷ rest) key es =
      let later = set_events rest key es in
      if str_eq k key then (k, es) ∷ rest else (k, old) ∷ later

  -- e[0] > cutoff
  abbrev pub in_window : ℕ → ℕ → ℕ × A → Bool
  in_window now window_s e = ltb now (e.0 + window_s)

  unfoldable pub prune_and_record :
      CounterStore A → String → A → ℕ → ℕ → CounterStore A × List (ℕ × A)
  prune_and_record s key amount now window_s =
      let events = keep (in_window now window_s) (events_at s.events key) ++ (now, amount) ∷ [] in
      (record { events = set_events s.events key events }, events)

  -- `one` is 1.0
  unfoldable pub hit : A → CounterStore A → String → ℕ → ℕ → CounterStore A × ℕ
  hit one s key now window_s = let r = prune_and_record s key one now window_s in (r.0, length r.1)

  -- `sum` is the built-in sum of floats
  unfoldable pub add : (List A → A) → CounterStore A → String → A → ℕ → ℕ → CounterStore A × A
  add sum s key amount now window_s =
      let r = prune_and_record s key amount now window_s in (r.0, sum (map (λ e. e.1) r.1))

  unfoldable pub reset : CounterStore A → CounterStore A
  reset s = no_events
