-- ===== src/Pipeline/Advised/Laws.antt =====
-- What an advisory deployment changes of a verdict, and what it leaves.
use stonefold.Prelude.{
  ◌≡◌, refl, ℕ, true, false, Option, none, some, [], arith, Bool-cases, inl, inr, ◌&&◌, ◌∙◌,
}
use stonefold.Models.Enums.{Decision, is_allow, is_halt}
use stonefold.Models.Records.{ResolvedAction, Advice}
use stonefold.Pipeline.{Deps, Decided, ScopePredicate}
use stonefold.Pipeline.Advised.{
  as_advised, translate, advice_for, measured_by, forwarded, unscoped, kill_caused,
}

-- What every translation keeps: the call, its resolution, the gates' trace and the reservation.
pub record IsSame (k k' : Decided) : Type 0 where
  pub call : k'.call ≡ k.call
  pub resolved : k'.resolved ≡ k.resolved
  pub gate_results : k'.gate_results ≡ k.gate_results
  pub feedback : k'.feedback ≡ k.feedback
  pub claim : k'.claim ≡ k.claim

same : (k : Decided) → IsSame k k
same k = record { call = refl; resolved = refl; gate_results = refl; feedback = refl; claim = refl }

-- A verdict that goes through: nothing holds it, and no scope narrows its read.
pub record IsForwarded (k : Decided) : Type 0 where
  pub allowed : k.decision ≡ Decision.allow
  pub unheld : k.releases ≡ []
  pub unapproved : k.approval ≡ none
  pub unnarrowed : k.scope_pred ≡ none

measured_by-IsSame :
    (o : Option ScopePredicate) (k : Decided) (cap : ℕ) → IsSame k (measured_by o k cap)
unfolding measured_by
measured_by-IsSame none k cap = same k
measured_by-IsSame (some p) k cap = record {
  call = refl;
  resolved = refl;
  gate_results = refl;
  feedback = refl;
  claim = refl;
}

decision-measured_by :
    (o : Option ScopePredicate) (k : Decided) (cap : ℕ)
    → (measured_by o k cap).decision ≡ k.decision
unfolding measured_by
decision-measured_by none k cap = refl
decision-measured_by (some p) k cap = refl

measured_by-IsForwarded :
    (o : Option ScopePredicate) (k : Decided) (cap : ℕ)
    → k.scope_pred ≡ o
    → IsForwarded (measured_by o (forwarded k) cap)
unfolding measured_by forwarded
measured_by-IsForwarded none k cap h = record {
  allowed = refl;
  unheld = refl;
  unapproved = refl;
  unnarrowed = h;
}
measured_by-IsForwarded (some p) k cap h = record {
  allowed = refl;
  unheld = refl;
  unapproved = refl;
  unnarrowed = refl;
}

forwarded-IsSame : (k : Decided) → IsSame k (forwarded k)
unfolding forwarded
forwarded-IsSame k = record {
  call = refl;
  resolved = refl;
  gate_results = refl;
  feedback = refl;
  claim = refl;
}

IsSame-trans : {k l m : Decided} → IsSame k l → IsSame l m → IsSame k m
IsSame-trans h g = record {
  call = g.call ∙ h.call;
  resolved = g.resolved ∙ h.resolved;
  gate_results = g.gate_results ∙ h.gate_results;
  feedback = g.feedback ∙ h.feedback;
  claim = g.claim ∙ h.claim;
}

-- The two ways of a verdict that is translated: it stays as it is, or it goes through under advice.
pub data Translated (k k' : Decided) (advice : Option Advice) : Type 0 where
  stays : k.resolved ≡ none → k' ≡ k → Translated k k' advice
  goes_through :
      (a : ResolvedAction) (b : Advice)
      → k.resolved ≡ some a
      → IsForwarded k'
      → advice ≡ some b
      → b.decision ≡ k.decision
      → b.rule ≡ k.rule
      → Translated k k' advice

module _ {W : Type 0} (deps : Deps W) where
  translate-IsSame : (k : Decided) (o : Option ResolvedAction) → IsSame k (translate deps k o).0
  unfolding translate unscoped
  translate-IsSame k none = same k
  translate-IsSame k (some a) =
      IsSame-trans (forwarded-IsSame k)
        (measured_by-IsSame (forwarded k).scope_pred (forwarded k) deps.scope_measure_cap)

  -- Translating a verdict for a deployment that does not enforce keeps its call, its resolved action,
  -- its gate trace, its feedback level and its reservation.
  pub as_advised-IsSame : (k : Decided) → IsSame k (as_advised deps k).0
  unfolding as_advised unscoped
  as_advised-IsSame k = elim (Bool-cases (is_allow k.decision)) [
    | inl e ↦ rw e (measured_by-IsSame k.scope_pred k deps.scope_measure_cap)
    | inr e ↦ elim (Bool-cases (is_halt k.decision && kill_caused k.rule)) [
      | inl f ↦ rw (e, f) (same k)
      | inr f ↦ rw (e, f) (translate-IsSame k k.resolved)
    ]
  ]

  translate-cases :
      (k : Decided) (o : Option ResolvedAction)
      → k.resolved ≡ o
      → Translated k (translate deps k o).0 (translate deps k o).1
  unfolding translate advice_for unscoped forwarded
  translate-cases k none h = stays h refl
  translate-cases k (some a) h =
      goes_through a (advice_for deps k a) h
        (measured_by-IsForwarded k.scope_pred k deps.scope_measure_cap refl) refl refl refl

  -- A verdict that is no ALLOW, and no HALT of the kill machinery, either is unresolved and stays as
  -- it is, or goes through under advice: it is allowed with no approval, no release contract and no
  -- scope, and the advice carries the verdict's own decision and rule.
  pub as_advised-forwards :
      (k : Decided)
      → is_allow k.decision ≡ false
      → (is_halt k.decision && kill_caused k.rule) ≡ false
      → Translated k (as_advised deps k).0 (as_advised deps k).1
  unfolding as_advised
  as_advised-forwards k e f = rw (e, f) (translate-cases k k.resolved refl)

  -- A verdict of the kill machinery is not translated.
  pub as_advised-killed :
      (k : Decided) → (is_halt k.decision && kill_caused k.rule) ≡ true → (as_advised deps k).0 ≡ k
  unfolding as_advised
  as_advised-killed k h = ground arith
