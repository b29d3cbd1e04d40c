-- ===== src/Pipeline/Items/FanOut/Laws.antt =====
-- What the envelope of a call with items lets its reader conclude.
use stonefold.Prelude.{
  ◌≡◌, refl, String, Bool, true, false, some, List, [], ◌∷◌, map, any, all, keep, arith, Bool-cases,
  inl, inr,
}
use stonefold.Models.Enums.{Decision, EnforcementMode, FeedbackLevel, is_refusal, is_hold, is_allow}
use stonefold.Models.Records.{EvalResult, ItemVerdict}
use stonefold.Pipeline.Items.{worst}
use stonefold.Pipeline.Items.FanOut.{revise, revise_all, applied_names, conclude}

abbrev pub verdict_allowed : ItemVerdict → Bool
verdict_allowed v = is_allow v.decision

abbrev pub names : List ItemVerdict → List String
names vs = map (λ (v : ItemVerdict). v.item) vs

-- none of the refusals is among the decisions
calm-allowed :
    (vs : List ItemVerdict)
    → any is_refusal (map (λ (v : ItemVerdict). v.decision) vs) ≡ false
    → any is_hold (map (λ (v : ItemVerdict). v.decision) vs) ≡ false
    → all verdict_allowed vs ≡ true
calm-allowed [] h k = refl
calm-allowed (v ∷ vs) h k = ground (arith, calm-allowed vs)

worst-allow :
    (vs : List ItemVerdict)
    → worst (map (λ (v : ItemVerdict). v.decision) vs) ≡ Decision.allow
    → all verdict_allowed vs ≡ true
unfolding worst
worst-allow vs h = calm-allowed vs (ground arith) (ground arith)

item-revise :
    (mode : EnforcementMode) (r : EvalResult) (v : ItemVerdict) → (revise mode r v).item ≡ v.item
unfolding revise
item-revise mode r v = ground arith

names-revise :
    (mode : EnforcementMode) (r : EvalResult) (vs : List ItemVerdict)
    → names (map (revise mode r) vs) ≡ names vs
names-revise mode r [] = refl
names-revise mode r (v ∷ vs) = rw (item-revise mode r v, names-revise mode r vs) refl

revise-refused :
    (mode : EnforcementMode) (r : EvalResult) (v : ItemVerdict)
    → is_allow r.decision ≡ false
    → verdict_allowed (revise mode r v) ≡ false
unfolding revise
revise-refused mode r v h = ground arith

revise-kept :
    (mode : EnforcementMode) (r : EvalResult) (v : ItemVerdict)
    → is_allow r.decision ≡ true
    → (revise mode r v).decision ≡ v.decision
unfolding revise
revise-kept mode r v h = ground arith

all-kept :
    (mode : EnforcementMode) (r : EvalResult) (vs : List ItemVerdict)
    → is_allow r.decision ≡ true
    → all verdict_allowed (map (revise mode r) vs) ≡ true
    → all verdict_allowed vs ≡ true
all-kept mode r [] h k = refl
all-kept mode r (v ∷ vs) h k = ground (arith, revise-kept mode r v h, all-kept mode r vs h)

keep-all : (vs : List ItemVerdict) → all verdict_allowed vs ≡ true → keep verdict_allowed vs ≡ vs
keep-all [] h = refl
keep-all (v ∷ vs) h = ground (arith, keep-all vs)

-- What an ALLOW of the whole call says of its items.
pub record IsWhole (before : List ItemVerdict) (r : EvalResult) : Type 0 where
  pub all_allowed : all verdict_allowed r.items ≡ true
  pub all_named : names r.items ≡ names before
  pub all_applied : r.applied ≡ names before

module _ (mode : EnforcementMode) (feedback : FeedbackLevel) where
  pub merged-IsWhole :
      (r : EvalResult) (before : List ItemVerdict)
      → (conclude mode feedback (some r) before).decision ≡ Decision.allow
      → IsWhole before (conclude mode feedback (some r) before)
  unfolding conclude revise_all applied_names
  merged-IsWhole r [] k = record {
    all_allowed = refl;
    all_named = refl;
    all_applied = ground arith;
  }
  merged-IsWhole r (v ∷ vs) k =
      let calm = worst-allow (map (revise mode r) (v ∷ vs)) k in
      elim (Bool-cases (is_allow r.decision)) [
        | inr e ↦ absurd (ground (arith, revise-refused mode r v e))
        | inl e ↦ record {
          all_allowed = calm;
          all_named = names-revise mode r (v ∷ vs);
          all_applied = rw (e, keep-all (v ∷ vs) (all-kept mode r (v ∷ vs) e calm)) refl;
        }
      ]
