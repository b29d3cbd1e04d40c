-- ===== src/Counters/Window.antt =====
-- A count over pruned events is the count over all events.
use stonefold.Prelude.{
  ℕ, ◌+◌, ◌≤◌, ◌≡◌, refl, ap, ◌∙◌, String, Bool, true, List, [], ◌∷◌, ◌++◌, if◌then◌else◌,
  Bool-cases, inl, inr, str_eq, eq_iff, keep, map, length, length-append, All, arith,
}
use stonefold.Counters.{
  CounterStore, no_events, events_at, set_events, in_window, prune_and_record, hit, add,
}

-- A call of `hit` or `add`.
pub record Use (A : Type 0) : Type 0 where
  pub key : String
  pub amount : A
  pub now : ℕ
  pub window_s : ℕ

-- No earlier call of the key was later, or pruned by a shorter window.
pub record Precedes {A : Type 0} (key : String) (now window_s : ℕ) (u : Use A) : Type 0 where
  pub is_earlier : str_eq u.key key ≡ true → u.now ≤ now
  pub is_wider : str_eq u.key key ≡ true → window_s ≤ u.window_s

module _ {A : Type 0} where
  -- the store after the calls, of which the last stands first
  unfoldable pub after : List (Use A) → CounterStore A
  after [] = no_events
  after (u ∷ us) = (prune_and_record (after us) u.key u.amount u.now u.window_s).0

  -- every event that the calls recorded for the key, whatever was pruned
  unfoldable pub all_events : List (Use A) → String → List (ℕ × A)
  all_events [] key = []
  all_events (u ∷ us) key =
      let rest = all_events us key in
      if str_eq u.key key then rest ++ (u.now, u.amount) ∷ [] else rest

  events_at-set_events :
      (es : List (String × List (ℕ × A))) (k key : String) (new : List (ℕ × A))
      → events_at (set_events es k new) key ≡ (if str_eq k key then new else events_at es key)
  unfolding events_at set_events
  events_at-set_events [] k key new = refl
  events_at-set_events ((i, old) ∷ rest) k key new =
      ground (arith, eq_iff i k, eq_iff i key, eq_iff k key, events_at-set_events rest k key new)

  keep-append :
      (p : ℕ × A → Bool) (xs ys : List (ℕ × A)) → keep p (xs ++ ys) ≡ keep p xs ++ keep p ys
  keep-append p [] ys = refl
  keep-append p (x ∷ xs) ys = ground (arith, keep-append p xs ys)

  -- What the wider window of an earlier call drops, a later and narrower one drops too.
  keep-keep :
      (now window_s n w : ℕ) (xs : List (ℕ × A))
      → n ≤ now
      → window_s ≤ w
      → keep (in_window now window_s) (keep (in_window n w) xs) ≡ keep (in_window now window_s) xs
  keep-keep now window_s n w [] a b = refl
  keep-keep now window_s n w (x ∷ xs) a b = ground (arith, keep-keep now window_s n w xs a b)

  events_at-after :
      (u : Use A) (us : List (Use A)) (key : String)
      → events_at (after (u ∷ us)).events key ≡ (
          if str_eq u.key key
          then keep (in_window u.now u.window_s) (events_at (after us).events u.key)
            ++ (u.now, u.amount) ∷ []
          else events_at (after us).events key)
  unfolding after prune_and_record
  events_at-after u us key = events_at-set_events (after us).events u.key key _

  events_at-none : (key : String) → events_at (after []).events key ≡ []
  unfolding after events_at
  events_at-none key = refl

  keep-after :
      (us : List (Use A)) (key : String) (now window_s : ℕ)
      → All (Precedes key now window_s) us
      → keep (in_window now window_s) (events_at (after us).events key)
        ≡ keep (in_window now window_s) (all_events us key)
  unfolding all_events
  keep-after [] key now window_s h = ap (keep (in_window now window_s)) (events_at-none key)
  keep-after (u ∷ us) key now window_s (p, ps) = elim (Bool-cases (str_eq u.key key)) [
    | inl same ↦ ground (
      arith,
      events_at-after u us key,
      (eq_iff u.key key).0 same,
      p.is_earlier same,
      p.is_wider same,
      keep-append (in_window now window_s)
          (keep (in_window u.now u.window_s) (events_at (after us).events key))
          ((u.now, u.amount) ∷ []),
      keep-append (in_window now window_s) (all_events us key) ((u.now, u.amount) ∷ []),
      keep-keep now window_s u.now u.window_s (events_at (after us).events key),
      keep-after us key now window_s ps,
    )
    | inr other ↦ ground (arith, events_at-after u us key, keep-after us key now window_s ps)
  ]

  -- After any calls of `hit` and `add`, of which none on the key is later than `now` or has a window
  -- shorter than `window_s`: a further call of the key answers with the number, or with the sum of
  -- the amounts, of all events that were ever recorded for the key within `window_s` of `now`,
  -- itself included. What the earlier calls pruned is never missed.
  pub windowed-is_exact :
      (one : A) (sum : List A → A) (us : List (Use A)) (key : String) (amount : A)
      (now window_s : ℕ)
      → All (Precedes key now window_s) us
      → ((hit one (after us) key now window_s).1
          ≡ length (keep (in_window now window_s) (all_events us key)) + 1)
        × ((add sum (after us) key amount now window_s).1
            ≡ sum (
                map
                  (λ e. e.1)
                  (keep (in_window now window_s) (all_events us key) ++ (now, amount) ∷ [])))
  unfolding hit add prune_and_record
  windowed-is_exact one sum us key amount now window_s h = (
    ap (λ es. length (es ++ (now, one) ∷ [])) (keep-after us key now window_s h)
        ∙ omega (
          arith,
          length-append (keep (in_window now window_s) (all_events us key)) ((now, one) ∷ []),
        ),
    ap (λ es. sum (map (λ e. e.1) (es ++ (now, amount) ∷ []))) (keep-after us key now window_s h),
  )
