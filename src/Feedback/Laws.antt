-- ===== src/Feedback/Laws.antt =====
-- What the projection of a result keeps from the agent.
use stonefold.Prelude.{◌≡◌, refl, String, some, List, [], ◌∷◌, map}
use stonefold.Models.Enums.{FeedbackLevel}
use stonefold.Models.Records.{GateResult, EvalResult}
use stonefold.Feedback.{redact_gate, view_at, agent_view}

-- Two traces that differ in prose reasons and in evidence alone.
pub data Masked : List GateResult → List GateResult → Type 0 where
  none_left : Masked [] []
  same_but :
      {gs hs : List GateResult} (g h : GateResult)
      → g.gate ≡ h.gate
      → g.outcome ≡ h.outcome
      → g.code ≡ h.code
      → g.source ≡ h.source
      → g.retry_class ≡ h.retry_class
      → g.fields ≡ h.fields
      → Masked gs hs
      → Masked (g ∷ gs) (h ∷ hs)

redact-Masked : {gs hs : List GateResult} → Masked gs hs → map redact_gate gs ≡ map redact_gate hs
unfolding redact_gate
redact-Masked none_left = refl
redact-Masked (same_but g h a b c d e f rest) = rw (a, b, c, d, e, f, redact-Masked rest) refl

-- What a level keeps back: at `code` any trace and any scope, at `code+fields` reasons and evidence.
pub data Alike (r s : EvalResult) : FeedbackLevel → Type 0 where
  any_trace :
      (gates : List GateResult) (scope : List String)
      → s ≡ record r { gates = gates; scope_applied = scope }
      → Alike r s FeedbackLevel.code
  any_evidence :
      (gates : List GateResult)
      → Masked r.gates gates
      → s ≡ record r { gates = gates }
      → Alike r s FeedbackLevel.code_fields

-- An agent cannot tell apart two results that differ only in what its level keeps back: at `code`,
-- the gates' trace and the scope; at `code+fields`, the gates' prose reasons and their evidence.
pub agent_view-hides :
    (r s : EvalResult) (level : FeedbackLevel)
    → Alike r s level
    → agent_view r (some level) ≡ agent_view s (some level)
unfolding agent_view view_at
agent_view-hides r s _ (any_trace gates scope e) = rw e refl
agent_view-hides r s _ (any_evidence gates m e) = rw e (rw (redact-Masked m) refl)
