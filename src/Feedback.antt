-- ===== src/Feedback.antt =====
-- stonefold_core/feedback.py: what an agent sees of a result.
pub mod Laws
use stonefold.Prelude.{
  String, Option, none, some, List, [], ◌∷◌, map, or_else, if◌then◌else◌, str_eq,
}
use stonefold.Models.Enums.{FeedbackLevel}
use stonefold.Models.Records.{GateResult, EvalResult, BatchResult}

-- FeedbackLevel(text), or the default
unfoldable pub parse_feedback : String → FeedbackLevel
parse_feedback raw =
    if str_eq raw "code"
    then FeedbackLevel.code
    else if str_eq raw "code+evidence"
    then FeedbackLevel.code_evidence
    else FeedbackLevel.code_fields

-- `_redact_gate`
unfoldable pub redact_gate : GateResult → GateResult
redact_gate g = record g { reason = ""; evidence = none }

view_at : FeedbackLevel → EvalResult → EvalResult
view_at FeedbackLevel.code_evidence r = r
view_at FeedbackLevel.code r = record r { gates = []; scope_applied = [] }
view_at FeedbackLevel.code_fields r = record r { gates = map redact_gate r.gates }

unfoldable pub agent_view : EvalResult → Option FeedbackLevel → EvalResult
unfolding view_at
agent_view r level = view_at (or_else level r.feedback) r

unfoldable pub agent_view_batch : BatchResult → BatchResult
agent_view_batch b = record b { results = map (λ r. agent_view r none) b.results }
