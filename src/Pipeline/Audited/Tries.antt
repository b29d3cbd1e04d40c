-- ===== src/Pipeline/Audited/Tries.antt =====
-- Runs that an exception may leave, and a commit behind such a run.
use stonefold.Prelude.{◌≡◌, refl, Bool, true, all, none, ◌⊎◌, inl, inr}
use stonefold.Models.Records.{EvalResult}
use stonefold.Pipeline.{Event, Run, Act, ◌>>=◌}
use stonefold.Pipeline.Audited.{
  Settled, Ended, Ends, Looks, is_look, is_call, writes-append, writes-calls, looks-calls,
  all-append, resume-returned, resume-lost,
}

-- The run ended in an exception, for a reason of which X holds, and all its events are quiet.
pub record Escaped {W A : Type 0} (quiet : Event → Bool) (X : Type 0) (run : Run W A) : Type 0 where
  pub lost : run.value ≡ none
  pub silent : all quiet run.events ≡ true
  pub cause : X

-- It calls nothing but what the decide phase reads; it returns, or an exception leaves it.
abbrev pub Tries : {W A : Type 0} → Type 0 → (A → Type 0) → Act W A → Type 0
Tries {W} X P m = (w : W) → Settled is_look P (m w) ⊎ Escaped is_look X (m w)

module _ {W A B : Type 0} {X : Type 0} {P : A → Type 0} (m : Act W A) where
  pub Tries-bind :
      {Q : B → Type 0} (f : A → Act W B)
      → Looks P m
      → ((a : A) → P a → Tries X Q (f a))
      → Tries X Q (m >>= f)
  Tries-bind f h g w =
      let s = h w in
      let step = resume-returned m f w s.result s.returned in
      let quiet = all-append is_look (m w).events (f s.result (m w).world).events s.silent in
      elim (g s.result s.holds (m w).world) [
        | inl t ↦ inl (
            rw step (record {
              result = t.result;
              returned = t.returned;
              silent = quiet t.silent;
              holds = t.holds;
            }))
        | inr t ↦ inr (rw step (record { lost = t.lost; silent = quiet t.silent; cause = t.cause }))
      ]

-- A decide phase, and the commit of its verdict.
pub Tries-Ends :
    {W A : Type 0} {X : Type 0} {P : A → Type 0} (m : Act W A) (f : A → Act W EvalResult)
    → Tries X P m
    → ((a : A) → P a → Ends (f a))
    → (w : W) → Ended ((m >>= f) w) ⊎ Escaped is_call X ((m >>= f) w)
Tries-Ends {X} {P} m f h g w = elim (h w) [
  | inl s ↦
      let t = g s.result s.holds (m w).world in
      let quiet = writes-calls (m w).events (looks-calls (m w).events s.silent) in
      inl (
        rw (resume-returned m f w s.result s.returned) (record {
          result = t.result;
          written = t.written;
          returned = t.returned;
          once = rw (writes-append (m w).events (f s.result (m w).world).events, quiet) t.once;
          mirrors = t.mirrors;
        }))
  | inr s ↦ inr (
      rw (resume-lost m f w s.lost)
        (record { lost = refl; silent = looks-calls (m w).events s.silent; cause = s.cause }))
]
