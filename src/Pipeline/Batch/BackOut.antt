-- ===== src/Pipeline/Batch/BackOut.antt =====
-- A batch that is refused a reservation gives back the reservations that it took.
use stonefold.Prelude.{
  ◌≡◌, refl, ap, ◌∙◌, ℕ, zero, suc, String, Bool, true, false, Option, none, some, List, [], ◌∷◌,
  ◌++◌, ◌&&◌, ◌||◌, map, any, all, length, str_eq, eq_iff, arith,
}
use stonefold.Models.Enums.{Decision}
use stonefold.Models.Records.{Actor, Session, BatchResult, ObligationClaim}
use stonefold.Pipeline.{Event, Act, ◌>>=◌, Deps, Decided, Adapter}
use stonefold.Pipeline.Claims.{release_claim, release_at, adapter_at}
use stonefold.Pipeline.Commit.{terminal}
use stonefold.Pipeline.Audited.{
  Settled, Settled-bind, Settled-return, Settled-ask, Anything, resume-returned,
}
use stonefold.Pipeline.Batch.{each, refuse, refuse_reserve, refuse_one, marks, refuse_reserved}
use stonefold.Pipeline.Batch.Laws.{IsRefusal}

-- what a batch may do while it backs out
abbrev pub is_back_out : Event → Bool
is_back_out (Event.wrote r) = true
is_back_out (Event.release_asked n r i) = true
is_back_out _ = false

-- the release of a claim
abbrev pub releases : ObligationClaim → Event → Bool
releases c (Event.release_asked n r i) =
    str_eq n c.registry && str_eq r c.ref && str_eq i c.intent_id
releases c _ = false

any-append : (p : Event → Bool) (xs ys : List Event) → any p (xs ++ ys) ≡ (any p xs || any p ys)
any-append p [] ys = refl
any-append p (x ∷ xs) ys = ground (arith, any-append p xs ys)

module _ {W A B : Type 0} (f : A → Act W B) where
  each-Settled :
      {quiet : Event → Bool}
      → ((x : A) (w : W) → Settled quiet Anything (f x w))
      → (xs : List A) (w : W) → Settled quiet (λ (bs : List B). length bs ≡ length xs) (each f xs w)
  unfolding each
  each-Settled h [] w = Settled-return [] refl w
  each-Settled h (x ∷ xs) w =
      Settled-bind (f x) _ (h x)
        (λ b _.
          Settled-bind (each f xs) _ (each-Settled h xs)
            (λ bs e. Settled-return (b ∷ bs) (ap suc e)))
        w

  -- the events of one element's run are among those of the list's
  each-hits :
      {quiet : Event → Bool} (p : Event → Bool)
      → ((x : A) (w : W) → Settled quiet Anything (f x w))
      → (before : List A) (c : A) (after : List A) → ((w : W) → any p (f c w).events ≡ true)
      → (w : W) → any p (each f (before ++ c ∷ after) w).events ≡ true
  unfolding each
  each-hits p h [] c after hit w =
      let s = h c w in
      rw (resume-returned (f c) _ w s.result s.returned)
        (rw (any-append p (f c w).events _, hit w) refl)
  each-hits p h (x ∷ before) c after hit w =
      let s = h x w in
      let t = each-Settled h (before ++ c ∷ after) (f x w).world in
      rw (resume-returned (f x) _ w s.result s.returned) (
        rw (resume-returned (each f (before ++ c ∷ after)) _ (f x w).world t.result t.returned) (
          ground (
            arith,
            any-append p (f x w).events ((each f (before ++ c ∷ after) (f x w).world).events ++ []),
            any-append p (each f (before ++ c ∷ after) (f x w).world).events [],
            each-hits p h before c after hit (f x w).world,
          )))

map-length :
    (ks : List Decided)
    → length {A = Bool × Decided} (map (λ (k : Decided). (false, k)) ks) ≡ length ks
map-length [] = refl
map-length (k ∷ ks) = ap suc (map-length ks)

marks-length : (i : ℕ) (ks : List Decided) → length (marks i ks) ≡ length ks
unfolding marks
marks-length i [] = refl
marks-length zero (k ∷ ks) = ap suc (map-length ks)
marks-length (suc i) (k ∷ ks) = ap suc (marks-length i ks)

module _ {W : Type 0} (d : Deps W) (actor : Actor) (session : Session) where
  release_at-Settled :
      (o : Option (Adapter W)) (c : ObligationClaim) (w : W)
      → Settled is_back_out Anything (release_at d o c w)
  unfolding release_at
  release_at-Settled none c w = Settled-return tt tt w
  release_at-Settled (some adapter) c w =
      Settled-bind _ _ (Settled-ask {P = Anything} _ _ refl (λ _. tt)) (λ _ _. Settled-return tt tt)
        w

  release-Settled :
      (c : ObligationClaim) (w : W) → Settled is_back_out Anything (release_claim d (some c) w)
  unfolding release_claim
  release-Settled c w = release_at-Settled (adapter_at d c.registry) c w

  release_at-hits :
      (adapter : Adapter W) (c : ObligationClaim) (w : W)
      → any (releases c) (release_at d (some adapter) c w).events ≡ true
  unfolding release_at ◌>>=◌
  release_at-hits adapter c w =
      ground
        (arith, eq_iff c.registry c.registry, eq_iff c.ref c.ref, eq_iff c.intent_id c.intent_id)

  release-hits :
      (adapter : Adapter W) (c : ObligationClaim) (w : W)
      → adapter_at d c.registry ≡ some adapter
      → any (releases c) (release_claim d (some c) w).events ≡ true
  unfolding release_claim
  release-hits adapter c w found = rw found (release_at-hits adapter c w)

  terminal-Settled :
      (rule : String) (m : Bool × Decided) (w : W)
      → Settled is_back_out Anything (refuse_one d actor session rule m w)
  unfolding refuse_one refuse refuse_reserve terminal ◌>>=◌
  terminal-Settled rule (true, k) w = record {
    result = _;
    returned = refl;
    silent = refl;
    holds = tt;
  }
  terminal-Settled rule (false, k) w = record {
    result = _;
    returned = refl;
    silent = refl;
    holds = tt;
  }

  refuse_reserved-Settled :
      (ks : List Decided) (i : ℕ) (rule : String) (held : List ObligationClaim) (w : W)
      → Settled is_back_out
          (IsRefusal d actor session i Decision.deny (length ks))
          (refuse_reserved d actor session ks i rule held w)
  unfolding refuse_reserved
  refuse_reserved-Settled ks i rule held w =
      Settled-bind (each (λ c. release_claim d (some c)) held) _
        (each-Settled (λ c. release_claim d (some c)) release-Settled held)
        (λ _ _.
          Settled-bind (each (refuse_one d actor session rule) (marks i ks)) _
            (each-Settled (refuse_one d actor session rule) (terminal-Settled rule) (marks i ks))
            (λ results e. Settled-return _ (refl, refl, e ∙ marks-length i ks)))
        w

  -- A batch that is refused a reservation returns DENY at that operation, with a result for each
  -- operation; it only writes records and gives back reservations, and each claim that it took by then
  -- is released at its registry, where one is wired.
  pub refuse_reserved-releases :
      (ks : List Decided) (i : ℕ) (rule : String) (before after : List ObligationClaim)
      (c : ObligationClaim) (adapter : Adapter W) (w : W)
      → adapter_at d c.registry ≡ some adapter
      → let run = refuse_reserved d actor session ks i rule (before ++ c ∷ after) w in
        (b : BatchResult) × (run.value ≡ some b)
        × IsRefusal d actor session i Decision.deny (length ks) b
        × (all is_back_out run.events ≡ true)
        × (any (releases c) run.events ≡ true)
  unfolding refuse_reserved
  refuse_reserved-releases ks i rule before after c adapter w found =
      let held = before ++ c ∷ after in
      let s = refuse_reserved-Settled ks i rule held w in
      let first = each-Settled (λ x. release_claim d (some x)) release-Settled held w in
      let hit =
        each-hits (λ x. release_claim d (some x)) (releases c) release-Settled before c after
          (λ v. release-hits adapter c v found) w in
      (
        s.result,
        s.returned,
        s.holds,
        s.silent,
        rw
            (resume-returned (each (λ x. release_claim d (some x)) held) _ w first.result
              first.returned)
            (rw
              (any-append (releases c) (each (λ x. release_claim d (some x)) held w).events _, hit)
              refl),
      )
