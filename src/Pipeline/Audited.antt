-- ===== src/Pipeline/Audited.antt =====
-- The records that a run writes: how a part that writes none and a part that ends the call compose.
pub mod Tries
use stonefold.Prelude.{
  ◌≡◌, refl, Bool, true, false, some, List, [], ◌∷◌, ◌++◌, arith, all, sym, ◌∙◌, none, ◌⊎◌, inl,
  inr, Option-cases,
}
use stonefold.Models.Records.{EvalResult, AuditRecord}
use stonefold.Pipeline.{Event, Run, Act, ◌>>=◌, resume, return, ask}

-- the records that a run writes, in order
abbrev pub writes : List Event → List AuditRecord
writes [] = []
writes (Event.wrote r ∷ es) = r ∷ writes es
writes (Event.kill_read t ∷ es) = writes es
writes (Event.target_fetched a ∷ es) = writes es
writes (Event.gates_run a ∷ es) = writes es
writes (Event.executed a ∷ es) = writes es
writes (Event.holds_listed ∷ es) = writes es
writes (Event.bumped t ∷ es) = writes es
writes (Event.staged q ∷ es) = writes es
writes (Event.reserve_asked n r i ∷ es) = writes es
writes (Event.release_asked n r i ∷ es) = writes es
writes (Event.consume_asked n r i ∷ es) = writes es

pub writes-append : (xs ys : List Event) → writes (xs ++ ys) ≡ writes xs ++ writes ys
writes-append [] ys = refl
writes-append (Event.wrote r ∷ es) ys = rw (writes-append es ys) refl
writes-append (Event.kill_read t ∷ es) ys = writes-append es ys
writes-append (Event.target_fetched a ∷ es) ys = writes-append es ys
writes-append (Event.gates_run a ∷ es) ys = writes-append es ys
writes-append (Event.executed a ∷ es) ys = writes-append es ys
writes-append (Event.holds_listed ∷ es) ys = writes-append es ys
writes-append (Event.bumped t ∷ es) ys = writes-append es ys
writes-append (Event.staged q ∷ es) ys = writes-append es ys
writes-append (Event.reserve_asked n r i ∷ es) ys = writes-append es ys
writes-append (Event.release_asked n r i ∷ es) ys = writes-append es ys
writes-append (Event.consume_asked n r i ∷ es) ys = writes-append es ys

-- A record says what the result says.
pub record Mirrors (r : EvalResult) (rec : AuditRecord) : Type 0 where
  pub decision : rec.decision ≡ r.decision
  pub gates : rec.gates ≡ r.gates
  pub reason_code : rec.reason_code ≡ r.reason_code
  pub retry_class : rec.retry_class ≡ r.retry_class
  pub scope_applied : rec.scope_applied ≡ r.scope_applied

-- a call of a dependency in the decide phase
abbrev pub is_look : Event → Bool
is_look (Event.kill_read t) = true
is_look (Event.target_fetched a) = true
is_look (Event.gates_run a) = true
is_look _ = false

abbrev pub is_call : Event → Bool
is_call (Event.wrote r) = false
is_call _ = true

-- The run returns a value of which P holds, and all its events are quiet.
pub record Settled {W A : Type 0} (quiet : Event → Bool) (P : A → Type 0) (run : Run W A)
    : Type 0 where
  pub result : A
  pub returned : run.value ≡ some result
  pub silent : all quiet run.events ≡ true
  pub holds : P result

pub writes-calls : (es : List Event) → all is_call es ≡ true → writes es ≡ []
writes-calls [] h = refl
writes-calls (Event.wrote r ∷ es) h = absurd (ground arith)
writes-calls (Event.kill_read t ∷ es) h = writes-calls es h
writes-calls (Event.target_fetched a ∷ es) h = writes-calls es h
writes-calls (Event.gates_run a ∷ es) h = writes-calls es h
writes-calls (Event.executed a ∷ es) h = writes-calls es h
writes-calls (Event.holds_listed ∷ es) h = writes-calls es h
writes-calls (Event.bumped t ∷ es) h = writes-calls es h
writes-calls (Event.staged q ∷ es) h = writes-calls es h
writes-calls (Event.reserve_asked n r i ∷ es) h = writes-calls es h
writes-calls (Event.release_asked n r i ∷ es) h = writes-calls es h
writes-calls (Event.consume_asked n r i ∷ es) h = writes-calls es h

look-call : (e : Event) → is_look e ≡ true → is_call e ≡ true
look-call (Event.wrote r) h = absurd (ground arith)
look-call (Event.kill_read t) h = refl
look-call (Event.target_fetched a) h = refl
look-call (Event.gates_run a) h = refl
look-call (Event.executed a) h = refl
look-call Event.holds_listed h = refl
look-call (Event.bumped t) h = refl
look-call (Event.staged q) h = refl
look-call (Event.reserve_asked n r i) h = refl
look-call (Event.release_asked n r i) h = refl
look-call (Event.consume_asked n r i) h = refl

pub looks-calls : (es : List Event) → all is_look es ≡ true → all is_call es ≡ true
looks-calls [] h = refl
looks-calls (e ∷ es) h = ground (arith, look-call e, looks-calls es)

pub all-append :
    (quiet : Event → Bool) (xs ys : List Event)
    → all quiet xs ≡ true
    → all quiet ys ≡ true
    → all quiet (xs ++ ys) ≡ true
all-append quiet [] ys h k = k
all-append quiet (x ∷ xs) ys h k = ground (arith, all-append quiet xs ys)

-- The run returns a result, and writes one record, which mirrors it.
pub record Ended {W : Type 0} (run : Run W EvalResult) : Type 0 where
  pub result : EvalResult
  pub written : AuditRecord
  pub returned : run.value ≡ some result
  pub once : writes run.events ≡ written ∷ []
  pub mirrors : Mirrors result written

-- It writes no record.
abbrev pub Settles : {W A : Type 0} → (A → Type 0) → Act W A → Type 0
Settles {W} P m = (w : W) → Settled is_call P (m w)

-- It calls nothing but what the decide phase reads.
abbrev pub Looks : {W A : Type 0} → (A → Type 0) → Act W A → Type 0
Looks {W} P m = (w : W) → Settled is_look P (m w)

pub Looks-Settles : {W A : Type 0} {P : A → Type 0} (m : Act W A) → Looks P m → Settles P m
Looks-Settles m h w =
    let s = h w in
    record {
      result = s.result;
      returned = s.returned;
      silent = looks-calls (m w).events s.silent;
      holds = s.holds;
    }

abbrev pub Ends : {W : Type 0} → Act W EvalResult → Type 0
Ends {W} m = (w : W) → Ended (m w)

module _ {W A B : Type 0} (m : Act W A) where
  pub resume-returned :
      (f : A → Act W B) (w : W) (a : A)
      → (m w).value ≡ some a
      → (m >>= f) w ≡ record {
        value = (f a (m w).world).value;
        events = (m w).events ++ (f a (m w).world).events;
        world = (f a (m w).world).world;
      }
  unfolding ◌>>=◌ resume
  resume-returned f w a h = rw h refl

  -- what a sequence that returned went through
  pub bind_returned :
      (f : A → Act W B) (w : W) (b : B)
      → ((m >>= f) w).value ≡ some b
      → (a : A) × ((m w).value ≡ some a) × ((f a (m w).world).value ≡ some b)
  unfolding ◌>>=◌ resume
  bind_returned f w b h = elim (Option-cases (m w).value) [
    | inl e ↦ absurd (ground (arith, rw e at h))
    | inr (a, e) ↦ (a, e, rw e at h)
  ]

module _ {W A B : Type 0} {quiet : Event → Bool} {P : A → Type 0} (m : Act W A) where
  pub Settled-bind :
      {Q : B → Type 0} (f : A → Act W B)
      → ((w : W) → Settled quiet P (m w))
      → ((a : A) → P a → (w : W) → Settled quiet Q (f a w))
      → (w : W) → Settled quiet Q ((m >>= f) w)
  Settled-bind f h g w =
      let s = h w in
      let t = g s.result s.holds (m w).world in
      rw (resume-returned m f w s.result s.returned) (record {
        result = t.result;
        returned = t.returned;
        silent = all-append quiet (m w).events (f s.result (m w).world).events s.silent t.silent;
        holds = t.holds;
      })

module _ {W A : Type 0} {P : A → Type 0} (m : Act W A) where
  pub Ends-bind :
      (f : A → Act W EvalResult) → Settles P m → ((a : A) → P a → Ends (f a)) → Ends (m >>= f)
  Ends-bind f h g w =
      let s = h w in
      let t = g s.result s.holds (m w).world in
      rw (resume-returned m f w s.result s.returned) (record {
        result = t.result;
        written = t.written;
        returned = t.returned;
        once =
            rw
              (
                writes-append (m w).events (f s.result (m w).world).events,
                writes-calls (m w).events s.silent,
              )
              t.once;
        mirrors = t.mirrors;
      })

module _ {W A B : Type 0} (m : Act W A) where
  pub resume-lost :
      (f : A → Act W B) (w : W)
      → (m w).value ≡ none
      → (m >>= f) w ≡ record { value = none; events = (m w).events; world = (m w).world }
  unfolding ◌>>=◌ resume
  resume-lost f w h = rw h refl

abbrev pub Anything : {A : Type 0} → A → Type 0
Anything a = Unit

pub Settled-return :
    {W A : Type 0} {quiet : Event → Bool} {P : A → Type 0} (a : A)
    → P a
    → (w : W) → Settled quiet P (return a w)
Settled-return a p w = record { result = a; returned = refl; silent = refl; holds = p }

pub Settled-ask :
    {W A : Type 0} {quiet : Event → Bool} {P : A → Type 0} (e : Event) (op : W → A × W)
    → quiet e ≡ true
    → ((w : W) → P (op w).0)
    → (w : W) → Settled quiet P (ask e op w)
Settled-ask e op h p w = record {
  result = (op w).0;
  returned = refl;
  silent = ground arith;
  holds = p w;
}

-- A change of the result that the record does not show.
pub record Keeps (f : EvalResult → EvalResult) : Type 0 where
  pub decision : (r : EvalResult) → (f r).decision ≡ r.decision
  pub gates : (r : EvalResult) → (f r).gates ≡ r.gates
  pub reason_code : (r : EvalResult) → (f r).reason_code ≡ r.reason_code
  pub retry_class : (r : EvalResult) → (f r).retry_class ≡ r.retry_class
  pub scope_applied : (r : EvalResult) → (f r).scope_applied ≡ r.scope_applied

pub Ends-map :
    {W : Type 0} (m : Act W EvalResult) (f : EvalResult → EvalResult)
    → Keeps f
    → Ends m
    → Ends (m >>= (λ r. return (f r)))
Ends-map m f keeps h w =
    let t = h w in
    rw (resume-returned m (λ r. return (f r)) w t.result t.returned) (record {
      result = f t.result;
      written = t.written;
      returned = refl;
      once = rw (writes-append (m w).events [], t.once) refl;
      mirrors = record {
        decision = t.mirrors.decision ∙ sym (keeps.decision t.result);
        gates = t.mirrors.gates ∙ sym (keeps.gates t.result);
        reason_code = t.mirrors.reason_code ∙ sym (keeps.reason_code t.result);
        retry_class = t.mirrors.retry_class ∙ sym (keeps.retry_class t.result);
        scope_applied = t.mirrors.scope_applied ∙ sym (keeps.scope_applied t.result);
      };
    })
