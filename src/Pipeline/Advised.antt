-- ===== src/Pipeline/Advised.antt =====
-- The advisory profile: `_measure_scope`, `_kill_caused`, `_unscoped`, `_as_advised` and the stamp of
-- `_AdvisoryAudit`.
pub mod Laws
use stonefold.Prelude.{
  ℕ, suc, ◌<◌, String, Bool, true, false, not, Option, none, some, List, [], ◌∷◌, ◌||◌, ◌&&◌,
  if◌then◌else◌, str_eq, starts_with, ends_with, length, ltb, zero,
}
use stonefold.Values.{Value}
use stonefold.Models.Enums.{
  Decision, EnforcementMode, Coverage, RetryClass, is_allow, is_hold, is_halt,
}
use stonefold.Models.Records.{
  Actor, ResolvedAction, Output, rows, receipt, Advice, AuditRecord, ScopeWouldRemove, unmeasured,
  measured,
}
use stonefold.Failure.{Call, ok, raised}
use stonefold.Reasons.{classify}
use stonefold.Outbox.{hold_identity, HoldIdentity}
use stonefold.Pipeline.{Deps, Decided, ScopePredicate, ScopeMeasure, AdvisoryAudit, Sink}

-- rows[: cap]
take : ℕ → List Value → List Value
take zero vs = []
take (suc n) [] = []
take (suc n) (v ∷ vs) = v ∷ take n vs

pub data Count : Type 0 where
  counted : ℕ → Count
  stopped : String → Count

one_more : Bool → Count → Count
one_more false (counted n) = counted (suc n)
one_more true c = c
one_more false (stopped why) = stopped why

count_row : Call Bool → Count → Count
unfolding one_more
count_row raised rest = stopped "predicate-raised"
count_row (ok b) rest = one_more b rest

-- the loop over the rows: the first row that cannot be judged ends the measurement
count_removed : ScopePredicate → Actor → List Value → Count
unfolding count_row
count_removed p actor [] = counted 0
count_removed p actor (Value.dict row ∷ vs) =
    count_row (p.matches row actor) (count_removed p actor vs)
count_removed p actor (v ∷ vs) = stopped "rows-not-attributes"

report : String → List Value → List Value → Count → ScopeWouldRemove
report label evaluated vs (counted n) =
    measured label n (length evaluated) (length vs) (ltb (length evaluated) (length vs))
report label evaluated vs (stopped why) = unmeasured label why

unfoldable pub measure_scope : ScopeMeasure → Output → Actor → ScopeWouldRemove
unfolding count_removed report take
measure_scope m (receipt fields) actor = unmeasured m.label "output-not-rows"
measure_scope m (rows vs) actor =
    let evaluated = take m.cap vs in
    report m.label evaluated vs (count_removed m.predicate actor evaluated)

unfoldable pub kill_caused : String → Bool
kill_caused rule = str_eq rule "kill-unavailable" || starts_with rule "kill:"

label_of : List String → ScopePredicate → String
label_of [] p = p.name
label_of (s ∷ ss) p = s

measured_by : Option ScopePredicate → Decided → ℕ → Decided
unfolding label_of
measured_by none d cap = d
measured_by (some p) d cap = record d {
  scope_pred = none;
  scope_applied = [];
  scope_measure = some (record { predicate = p; label = label_of d.scope_applied p; cap = cap });
}

unfoldable pub unscoped : Decided → ℕ → Decided
unfolding measured_by
unscoped d cap = measured_by d.scope_pred d cap

-- the rules that `_as_advised` calls unjudged
abbrev coverage_of : String → Coverage
coverage_of rule = if ends_with rule "-unavailable" then Coverage.unjudged else Coverage.judged

-- `_Decided` with the verdict of an advised call
unfoldable pub forwarded : Decided → Decided
forwarded d = record d {
  decision = Decision.allow;
  rule = "advisory";
  outcome = "not_executed";
  approval = none;
  releases = [];
}

module _ {W : Type 0} (deps : Deps W) where
  dedupe_text : Option HoldIdentity → Option String
  dedupe_text none = none
  dedupe_text (some identity) = some (deps.identity_text identity)

  advice_for : Decided → ResolvedAction → Advice
  unfolding dedupe_text
  advice_for d a =
      let (reason_code, retry_class) = classify d.decision d.rule d.gate_results in
      record {
        decision = d.decision;
        rule = d.rule;
        reason_code = reason_code;
        retry_class = retry_class;
        dedupe_key =
            if is_hold d.decision
            then dedupe_text (hold_identity deps.text a d.gate_results)
            else none;
      }

  translate : Decided → Option ResolvedAction → Decided × Option Advice × Coverage
  unfolding advice_for
  translate d none = (d, none, Coverage.unjudged)
  translate d (some a) =
      (unscoped (forwarded d) deps.scope_measure_cap, some (advice_for d a), coverage_of d.rule)

  unfoldable pub as_advised : Decided → Decided × Option Advice × Coverage
  unfolding translate
  as_advised d =
      if is_allow d.decision
      then (unscoped d deps.scope_measure_cap, none, Coverage.judged)
      else if is_halt d.decision && kill_caused d.rule
      then (d, none, Coverage.judged)
      else translate d d.resolved

stamped_rule : Option Advice → Decision → Option String → Option String
stamped_rule none decision rule = rule
stamped_rule (some a) decision rule = if is_allow decision then some a.rule else rule

or_advice : Option Advice → Option Advice → Option Advice
or_advice none old = old
or_advice (some a) old = some a

-- `_AdvisoryAudit.write`: the record that reaches the inner sink
unfoldable pub stamp : AdvisoryAudit → AuditRecord → AuditRecord
unfolding stamped_rule or_advice
stamp s r = record r {
  enforcement = EnforcementMode.advisory;
  coverage = s.coverage;
  advised = or_advice s.advice r.advised;
  rule = stamped_rule s.advice r.decision r.rule;
  batch_advice = elim s.batch_advice [ some b ↦ some b | none ↦ r.batch_advice ];
  item_advice = elim s.item_advice [ some i ↦ some i | none ↦ r.item_advice ];
}

-- what the sink of a commit makes of a record
unfoldable pub sunk : Sink → AuditRecord → AuditRecord
sunk none r = r
sunk (some s) r = stamp s r
