-- ===== src/Examples/Verdicts.antt =====
-- What a refused payment's agent is told, and what its failure mode is.
use stonefold.Models.Records.{EvalResult}
use stonefold.Models.Enums.{Kind, FeedbackLevel}
use stonefold.Compiler.{PermissionMap, Targets, compile, authorize_with}
use stonefold.Compiler.Index.{covered, authorize-reads}
use stonefold.Prelude.{not, ◌&&◌, List, ◌≡◌, refl, none, some, [], ◌∷◌, false, true, str_eq}
use stonefold.Models.Enums.{Decision, Outcome, holds}
use stonefold.Models.Records.{GateResult}
use stonefold.Reasons.{classify}
use stonefold.Reasons.Laws.{refusal-is_told, decider}
use stonefold.Examples.Fixtures.{payment}

abbrev pub rate_failure : GateResult
rate_failure = record {
  gate = "rate";
  outcome = Outcome.fail;
  reason = "too many";
  code = "rate-exceeded";
  source = "";
  evidence = none;
  retry_class = none;
  fields = [];
}

refusal-is_told_example :
    let told = classify Decision.deny "gate:rate" (rate_failure ∷ []) in
    (str_eq told.0 "" ≡ false)
    × (told.1 ≡ none
        → (g : GateResult) × (decider "gate:rate" (rate_failure ∷ []) ≡ some g)
          × (holds g.outcome ≡ true))
refusal-is_told_example = refusal-is_told Decision.deny "gate:rate" (rate_failure ∷ []) refl refl

abbrev allow_maps : List PermissionMap
allow_maps = ((Kind.effect, Targets.named (("Payment", "send" ∷ []) ∷ [])) ∷ []) ∷ []

abbrev deny_maps : List PermissionMap
deny_maps = ((Kind.effect, Targets.tokens ("refund" ∷ [])) ∷ []) ∷ []

authorize-reads_example :
    (authorize_with (compile allow_maps []) (compile deny_maps []) payment).allowed
    ≡ (not (covered deny_maps payment) && covered allow_maps payment)
authorize-reads_example = authorize-reads allow_maps deny_maps payment

abbrev pub paid : EvalResult
paid = record {
  decision = Decision.allow;
  rule = "allow";
  gates = [];
  reason_code = "";
  retry_class = none;
  feedback = FeedbackLevel.code;
  ticket = none;
  output = none;
  scope_applied = [];
  items = [];
  applied = [];
}
