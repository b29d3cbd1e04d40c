-- ===== src/Gates/Match/Decide.antt =====
-- stonefold_gates/gates.py: requireMatch. Candidates are counted, and one candidate is decided on.
pub mod Laws
pub mod Clauses
pub mod Evidence
use stonefold.Prelude.{
  ℕ, ℤ, pos, String, Bool, true, false, not, Option, none, some, List, [], ◌∷◌, ◌++◌, if◌then◌else◌,
  str_eq, contains, starts_with, split, length, ◌||◌, ◌&&◌,
}
use stonefold.Values.{Value, Items, nil, cons, Fields, empty, field, get, truthy, to_list}
use stonefold.Models.Enums.{Outcome, RetryClass, FailureMode}
use stonefold.Models.Records.{GateResult, Capability}
use stonefold.Failure.{Call, ok, raised, should_fail_closed}
use stonefold.Condition.{Operand}
use stonefold.Condition.Evaluate.{
  Eval, value, raise, foreign, ◌>>=◌, Thing, plain, EvalContext, resolve,
}
use stonefold.Condition.Evaluate.Run.{evaluate}
use stonefold.Gates.{
  GatePy, GateContext, Obligation, Answer, passed, failed, held, cfg_get, is_dict, resolve_field,
  to_number,
}
use stonefold.Gates.Guards.{listed}
use stonefold.Gates.Single.{caught}
use stonefold.Gates.Match.{StringClause, ToleranceClause, Clause, string, tolerance, parse_clauses}
use stonefold.Gates.Match.Record.{gate_name, refs_of, plan_of, evidence_of, refused, check_clauses}

-- dict.fromkeys: every text once, at its first place
once : List String → List String → List String
once seen [] = []
once seen (s ∷ ss) =
    let rest = once seen ss in
    let later = once (s ∷ seen) ss in if contains seen s then rest else s ∷ later

clause_fields : Clause → List String
clause_fields (string c) = c.intent
clause_fields (tolerance c) = c.matches ∷ []

fields_of : List Clause → List String
unfolding clause_fields
fields_of [] = []
fields_of (c ∷ cs) = clause_fields c ++ fields_of cs

unfoldable pub all_fields : List Clause → List String
unfolding once fields_of
all_fields cs = once [] (fields_of cs)

is_text : Option Value → String → Bool
is_text (some (Value.str s)) t = str_eq s t
is_text _ t = false

consume_of : Option Value → Option String
consume_of (some (Value.str s)) =
    if str_eq s "none" || starts_with s "obligation." then some s else none
consume_of _ = none

registry_name : GatePy → Option Value → String
registry_name py none = ""
registry_name py (some v) = if truthy v then py.ops.text_of (plain v) else ""

declared : List (String × Capability) → String → Option Capability
declared [] name = none
declared ((n, c) ∷ rest) name =
    let later = declared rest name in if str_eq n name then some c else later

-- `match`, if it is a list that is not empty
unfoldable pub match_list : Option Value → Option (List Value)
match_list (some (Value.list (cons v vs))) = some (v ∷ to_list vs)
match_list _ = none

provenance_list : Option Value → Eval (List Value)
provenance_list none = value []
provenance_list (some v) = if truthy v then listed v else value []

unfoldable pub all_clauses : GatePy → List Value → Option Value → Eval (List Clause)
unfolding provenance_list
all_clauses py raw provenance = parse_clauses py false raw >>= (λ cs.
    provenance_list provenance >>= (λ vs. parse_clauses py true vs >>= (λ ds. value (cs ++ ds))))

unfoldable pub on_fields : GateResult → List String → GateResult
on_fields r fs = record r { fields = fs }

-- The selector, or the fields of the clause whose intent side has no value.
pub data Selected : Type 0 where
  selector : List (String × Thing) → Selected
  stops : List String → Selected
  escapes : Selected

module _ {W : Type 0} (py : GatePy) (ctx : GateContext W) where
  -- `_registry_unavailable`
  unfoldable pub registry_unavailable : GateResult
  registry_unavailable =
      if should_fail_closed (some ctx.request.resolved) ctx.request.failure_mode
      then failed gate_name "fail-closed: obligation registry unavailable"
      else passed gate_name "failureMode=open: obligation registry unavailable, gate skipped"

  add_constraint : Option (String × Operand) → Bool → Eval (Option (String × Thing))
  add_constraint none provenance = value none
  add_constraint (some (f, o)) provenance =
      if provenance
      then value none
      else resolve ctx.request.eval_ctx o >>= (λ v. value (some (f, v)))

  prepend : Option (String × Thing) → Selected → Selected
  prepend (some x) (selector xs) = selector (x ∷ xs)
  prepend _ s = s

  select_clause : StringClause → Eval (Option (String × Thing)) → Selected → Selected
  unfolding prepend
  select_clause c (value x) rest = prepend x rest
  select_clause c (raise foreign) rest = escapes
  select_clause c (raise _) rest = stops c.intent

  unfoldable pub select : List Clause → Selected
  unfolding select_clause add_constraint
  select [] = selector []
  select (tolerance c ∷ cs) = select cs
  select (string c ∷ cs) = select_clause c (add_constraint c.eq c.provenance) (select cs)

  unfoldable pub no_match : Value → Fields → List String → GateResult
  unfolding is_text refused
  no_match cfg evidence fs =
      if is_text (cfg_get cfg "onNoMatch") "hold"
      then record (held gate_name "no obligation matches the intent") {
        code = "no-match";
        evidence = some evidence;
        fields = fs;
      }
      else refused "no obligation matches the intent" "no-match" RetryClass.terminal evidence fs

  unfoldable pub ambiguous : Value → Fields → List String → GateResult
  unfolding is_text refused
  ambiguous cfg evidence fs =
      if is_text (cfg_get cfg "onAmbiguous") "deny"
      then refused "the gateway never auto-selects" "ambiguous-match" RetryClass.escalate evidence
          fs
      else record (held gate_name "a human must decide") {
        code = "ambiguous-match";
        evidence = some evidence;
        fields = fs;
      }

  -- the number of candidates decides
  unfoldable pub decide_on :
      Value → String → String → Capability → List Clause → List Obligation → Eval GateResult
  unfolding no_match ambiguous
  decide_on cfg reg consume capability cs [] =
      value (no_match cfg (evidence_of reg []) (all_fields cs))
  decide_on cfg reg consume capability cs (ob ∷ []) =
      check_clauses py ctx.request.eval_ctx ob (plan_of reg ob consume capability) cs
  decide_on cfg reg consume capability cs (a ∷ b ∷ os) =
      value (ambiguous cfg (evidence_of reg (a ∷ b ∷ os)) (all_fields cs))

  unfoldable pub answered :
      Value → String → String → Capability → List Clause → Call (List Obligation) → Eval GateResult
  answered cfg reg consume capability cs raised = value registry_unavailable
  answered cfg reg consume capability cs (ok candidates) =
      decide_on cfg reg consume capability cs candidates

  unfoldable pub query :
      Value → String → String → Capability → List Clause → Selected → W → Answer W
  unfolding answered on_fields
  query cfg reg consume capability cs escapes w = (raise foreign, w)
  query cfg reg consume capability cs (stops fs) w =
      (value (on_fields (failed gate_name "fail-closed") fs), w)
  query cfg reg consume capability cs (selector sel) w = elim (ctx.obligations reg) [
    | none ↦ (value registry_unavailable, w)
    | some adapter ↦
        let (answer, w') = adapter sel w in (answered cfg reg consume capability cs answer, w')
  ]

  unfoldable pub with_clauses :
      Value → String → String → Capability → Eval (List Clause) → W → Answer W
  unfolding query
  with_clauses cfg reg consume capability (value cs) w =
      query cfg reg consume capability cs (select cs) w
  with_clauses cfg reg consume capability (raise foreign) w = (raise foreign, w)
  with_clauses cfg reg consume capability (raise _) w =
      (value (failed gate_name "fail-closed: bad match clause"), w)

  unfoldable pub with_registry :
      Value → String → String → Option Capability → Option (List Value) → W → Answer W
  unfolding with_clauses all_clauses
  with_registry cfg reg consume none raw w =
      (value (failed gate_name "fail-closed: unknown obligation registry"), w)
  with_registry cfg reg consume (some capability) none w =
      (value (failed gate_name "fail-closed: match must be a non-empty list"), w)
  with_registry cfg reg consume (some capability) (some raw) w =
      with_clauses cfg reg consume capability (all_clauses py raw (cfg_get cfg "provenance")) w

  unfoldable pub with_consume : Value → Option String → W → Answer W
  unfolding with_registry is_text registry_name declared
  with_consume cfg none w =
      (value (failed gate_name "fail-closed: consume must be an obligation path or 'none'"), w)
  with_consume cfg (some consume) w =
      if is_text (cfg_get cfg "onAmbiguous") "allow"
      then (value (failed gate_name "fail-closed: onAmbiguous: allow is illegal"), w)
      else let reg = registry_name py (cfg_get cfg "registry") in
        with_registry cfg reg consume (declared ctx.registry.obligation_registries reg)
          (match_list (cfg_get cfg "match")) w

  unfoldable pub require_match : Value → W → Answer W
  unfolding with_consume consume_of
  require_match cfg w =
      if is_dict cfg
      then with_consume cfg (consume_of (cfg_get cfg "consume")) w
      else (value (failed gate_name "fail-closed: gate needs {registry, match, consume}"), w)
