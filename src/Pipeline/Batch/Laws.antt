-- ===== src/Pipeline/Batch/Laws.antt =====
-- A batch with a refused operation commits nothing of any operation.
use stonefold.Prelude.{
  ◌≡◌, refl, ◌∙◌, ℕ, ◌+◌, Bool, true, false, Option, none, some, List, [], ◌∷◌, arith, all, length,
  length-append,
}
use stonefold.Models.Enums.{Decision, EnforcementMode}
use stonefold.Models.Records.{Actor, Session, RequestEnv, BatchResult}
use stonefold.Pipeline.{Event, Run, Act, ◌>>=◌, return, Deps, Decided, Sink}
use stonefold.Pipeline.Commit.{terminal}
use stonefold.Pipeline.Audited.{resume-returned, all-append}
use stonefold.Pipeline.Batch.{
  each, position, refused, refuse, refuse_all, commit_enforced, commit_batch,
}

abbrev pub is_wrote : Event → Bool
is_wrote (Event.wrote r) = true
is_wrote _ = false

-- The run returns, leaves the world as it was, and its n events are audit records.
record Recorded {W A : Type 0} (P : A → Type 0) (n : ℕ) (w : W) (run : Run W A) : Type 0 where
  result : A
  returned : run.value ≡ some result
  good : P result
  only_wrote : all is_wrote run.events ≡ true
  count : length run.events ≡ n
  untouched : run.world ≡ w

abbrev Records : {W A : Type 0} → (A → Type 0) → ℕ → Act W A → Type 0
Records {W} P n m = (w : W) → Recorded P n w (m w)

Records-bind :
    {W A B : Type 0} {P : A → Type 0} {Q : B → Type 0} {n k total : ℕ} (m : Act W A)
    (f : A → Act W B)
    → n + k ≡ total
    → Records P n m
    → ((a : A) → P a → Records Q k (f a))
    → Records Q total (m >>= f)
Records-bind m f sum h g w =
    let s = h w in
    let t = g s.result s.good (m w).world in
    rw (resume-returned m f w s.result s.returned) (record {
      result = t.result;
      returned = t.returned;
      good = t.good;
      only_wrote =
          all-append is_wrote (m w).events (f s.result (m w).world).events s.only_wrote
            t.only_wrote;
      count = omega (
        arith,
        length-append (m w).events (f s.result (m w).world).events,
        s.count,
        t.count,
        sum,
      );
      untouched = t.untouched ∙ s.untouched;
    })

Records-return : {W A : Type 0} {P : A → Type 0} (a : A) → P a → Records {W = W} P 0 (return a)
Records-return a p w = record {
  result = a;
  returned = refl;
  good = p;
  only_wrote = refl;
  count = refl;
  untouched = refl;
}

abbrev Anyone : {A : Type 0} → A → Type 0
Anyone a = Unit

abbrev HasLength : {B : Type 0} → ℕ → List B → Type 0
HasLength n bs = length bs ≡ n

each-Records :
    {W A B : Type 0} (f : A → Act W B) (xs : List A)
    → ((x : A) → Records Anyone 1 (f x))
    → Records (HasLength (length xs)) (length xs) (each f xs)
unfolding each
each-Records f [] h = Records-return [] refl
each-Records f (x ∷ xs) h = Records-bind {n = 1} {k = length xs} (f x) _ (omega arith) (h x) (λ b _.
    Records-bind {n = length xs} {k = 0} (each f xs) _ (omega arith) (each-Records f xs h)
      (λ bs e. Records-return (b ∷ bs) (omega (arith, e))))

module _ {W : Type 0} (d : Deps W) (actor : Actor) (session : Session) where
  refuse-Records : (sink : Sink) (k : Decided) → Records Anyone 1 (refuse d actor session sink k)
  unfolding refuse terminal ◌>>=◌
  refuse-Records sink k w = record {
    result = _;
    returned = refl;
    good = tt;
    only_wrote = refl;
    count = refl;
    untouched = refl;
  }

  -- What a refused batch answers.
  abbrev pub IsRefusal : ℕ → Decision → ℕ → BatchResult → Type 0
  IsRefusal i decision n b =
      (b.decision ≡ decision) × (b.failing_index ≡ some i) × (length b.results ≡ n)

  refuse_all-Records :
      (sink : Sink) (ks : List Decided) (i : ℕ) (decision : Decision)
      → Records
          (IsRefusal i decision (length ks))
          (length ks)
          (refuse_all d actor session sink ks i decision)
  unfolding refuse_all
  refuse_all-Records sink ks i decision =
      Records-bind {n = length ks} {k = 0} (each (refuse d actor session sink) ks) _ (omega arith)
        (each-Records (refuse d actor session sink) ks (refuse-Records sink))
        (λ results e. Records-return _ (refl, refl, e))

  -- In an enforcing deployment, a batch of which an operation was decided DENY or HALT returns that
  -- decision at the first such index, with a result for each operation, and does nothing but write
  -- one audit record for each: no dependency is called, and the world they share is as it was.
  pub refused_batch-commits_nothing :
      (ks : List Decided) (envs : List (Option RequestEnv)) (i : ℕ) (k : Decided) (w : W)
      → position refused ks ≡ some (i, k)
      → let run = commit_batch d actor session EnforcementMode.enforced envs ks w in
        (b : BatchResult) × (run.value ≡ some b)
        × IsRefusal i k.decision (length ks) b
        × (all is_wrote run.events ≡ true)
        × (length run.events ≡ length ks)
        × (run.world ≡ w)
  unfolding commit_batch commit_enforced
  refused_batch-commits_nothing ks envs i k w failing =
      let h = refuse_all-Records none ks i k.decision w in
      rw failing (h.result, h.returned, h.good, h.only_wrote, h.count, h.untouched)
