-- ===== src/Gates/Match/Record.antt =====
-- stonefold_gates/gates.py: the clauses of requireMatch, decided on the record that the registry gave.
pub mod Laws
use stonefold.Prelude.{
  ℕ, pos, String, Bool, Option, none, some, List, [], ◌∷◌, if◌then◌else◌, str_eq, split, length,
}
use stonefold.Values.{Value, Items, nil, cons, Fields, empty, field, get}
use stonefold.Models.Enums.{RetryClass}
use stonefold.Models.Records.{GateResult, Capability}
use stonefold.Condition.Evaluate.{Eval, value, raise, foreign, ◌>>=◌, EvalContext}
use stonefold.Condition.Evaluate.Run.{evaluate}
use stonefold.Gates.{GatePy, Obligation, passed, failed, resolve_field, to_number}
use stonefold.Gates.Guards.{is_null}
use stonefold.Gates.Match.{StringClause, ToleranceClause, Clause, string, tolerance}

abbrev pub gate_name : String
gate_name = "requireMatch"

-- `lookup_field`
lookup_parts : Value → List String → Option Value
lookup_parts v [] = some v
lookup_parts (Value.dict d) (p ∷ ps) = elim (get d p) [ none ↦ none | some v ↦ lookup_parts v ps ]
lookup_parts v (p ∷ ps) = none

unfoldable pub lookup_field : Fields → String → Option Value
unfolding lookup_parts
lookup_field fields path = lookup_parts (Value.dict fields) (split path ".")

unfoldable pub refs_of : List Obligation → Items
refs_of [] = nil
refs_of (o ∷ os) = cons (Value.str o.ref) (refs_of os)

unfoldable pub evidence_of : String → List Obligation → Fields
unfolding refs_of
evidence_of reg candidates = field "registry" (Value.str reg) (
    field "refs" (Value.list (refs_of candidates))
      (field "candidates" (Value.int (pos (length candidates))) empty))

unfoldable pub capability_value : Capability → String
capability_value Capability.transactional = "transactional"
capability_value Capability.window = "window"

-- the evidence of one candidate, with what its consumption takes
unfoldable pub plan_of : String → Obligation → String → Capability → Fields
unfolding refs_of capability_value
plan_of reg ob consume capability = field "registry" (Value.str reg) (
    field "refs" (Value.list (refs_of (ob ∷ []))) (
      field "candidates" (Value.int (pos 1)) (
        field "consume" (Value.str consume)
          (field "capability" (Value.str (capability_value capability)) empty))))

-- `ext_ctx`
unfoldable pub with_obligation : EvalContext → Fields → EvalContext
with_obligation ctx fields = record ctx {
  namespaces =
      λ n. let outer = ctx.namespaces n in if str_eq n "obligation" then some fields else outer;
}

-- a refusal of the matched record
unfoldable pub refused : String → String → RetryClass → Fields → List String → GateResult
refused reason code cls evidence fs = record (failed gate_name reason) {
  code = code;
  retry_class = some cls;
  evidence = some evidence;
  fields = fs;
}

unfoldable pub unread : Fields → List String → GateResult
unread evidence fs = record (failed gate_name "fail-closed") {
  evidence = some evidence;
  fields = fs;
}

-- the obligation's side and the intent's side, as numbers
unfoldable pub both_numbers : GatePy → EvalContext → Value → String → Eval (ℕ × ℕ)
both_numbers py ctx v matches =
    to_number py v
    >>= (λ x. resolve_field ctx (some (Value.str matches)) >>= to_number py >>= (λ y. value (x, y)))

unfoldable pub limit_of : GatePy → ToleranceClause → ℕ → ℕ
limit_of py c x = elim c.pct [
  | some p ↦ py.percent_of p x
  | none ↦ elim c.abs [ none ↦ py.zero | some a ↦ a ]
]

unfoldable pub outside : String → RetryClass → Fields → List String → GateResult
unfolding refused
outside = refused "outside tolerance"

-- A provenance clause that is out of tolerance has its own code and class.
unfoldable pub tolerance_verdict : GatePy → ToleranceClause → Fields → ℕ × ℕ → Option GateResult
unfolding limit_of
tolerance_verdict py c evidence (x, y) =
    if py.ops.float_lt (limit_of py c x) (py.distance x y)
    then some (
        if c.provenance
        then outside "provenance-mismatch" RetryClass.terminal evidence (c.matches ∷ [])
        else outside "outside-tolerance" RetryClass.retryable evidence (c.matches ∷ []))
    else none

-- What `except` makes of a clause's value, where a clause that holds is `none`.
unfoldable pub clause_caught :
    {A : Type 0} → Eval A → GateResult → (A → Option GateResult) → Eval (Option GateResult)
clause_caught (value a) failure k = value (k a)
clause_caught (raise foreign) failure k = raise foreign
clause_caught (raise _) failure k = value (some failure)

unfoldable pub with_record :
    GatePy → EvalContext → ToleranceClause → Fields → Value → Eval (Option GateResult)
unfolding clause_caught unread both_numbers tolerance_verdict outside
with_record py ctx c evidence v =
    if is_null v
    then value (some (unread evidence (c.matches ∷ [])))
    else clause_caught (both_numbers py ctx v c.matches) (unread evidence (c.matches ∷ []))
        (tolerance_verdict py c evidence)

-- `_check_tolerance`
unfoldable pub check_tolerance :
    GatePy → EvalContext → ToleranceClause → Obligation → Fields → Eval (Option GateResult)
unfolding with_record unread
check_tolerance py ctx c ob evidence = elim (lookup_field ob.fields c.path) [
  | none ↦ value (some (unread evidence (c.matches ∷ [])))
  | some v ↦ with_record py ctx c evidence v
]

unfoldable pub string_verdict : StringClause → Fields → Bool → Option GateResult
unfolding refused
string_verdict c evidence holds =
    if holds
    then none
    else some (
        if c.provenance
        then refused "provenance clause failed" "provenance-mismatch" RetryClass.terminal evidence
            c.intent
        else refused "match clause failed" "match-failed" RetryClass.terminal evidence c.intent)

-- one clause, on the record that was read again; `none` if it holds
unfoldable pub check_clause :
    GatePy → EvalContext → Obligation → Fields → Clause → Eval (Option GateResult)
unfolding clause_caught unread string_verdict
check_clause py ctx ob evidence (tolerance c) = check_tolerance py ctx c ob evidence
check_clause py ctx ob evidence (string c) =
    clause_caught (evaluate py.ops (with_obligation ctx ob.fields) c.expr)
      (unread evidence c.intent) (string_verdict c evidence)

unfoldable pub or_rest : Option GateResult → Eval GateResult → Eval GateResult
or_rest none rest = rest
or_rest (some r) rest = value r

unfoldable pub check_clauses :
    GatePy → EvalContext → Obligation → Fields → List Clause → Eval GateResult
check_clauses py ctx ob evidence [] =
    value (record (passed gate_name "") { evidence = some evidence })
check_clauses py ctx ob evidence (c ∷ cs) =
    check_clause py ctx ob evidence c
    >>= (λ verdict. or_rest verdict (check_clauses py ctx ob evidence cs))
