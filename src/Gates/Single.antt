-- ===== src/Gates/Single.antt =====
-- stonefold_gates/gates.py: valueLimit, contentCheck, window and requireExplanation.
use stonefold.Prelude.{
  ℕ, String, Bool, true, false, not, Option, none, some, List, [], ◌∷◌, if◌then◌else◌, str_eq, ◌||◌,
}
use stonefold.Values.{Value, Fields, get, truthy, to_list}
use stonefold.Models.Records.{GateResult}
use stonefold.Failure.{Call, ok, raised, is_closed}
use stonefold.Condition.Evaluate.{
  Eval, value, raise, missing, runtime, foreign, ◌>>=◌, Thing, plain, range, text_in,
}
use stonefold.Condition.Evaluate.Run.{within, to_minutes, make_window}
use stonefold.Gates.{
  GatePy, GateContext, Answer, passed, failed, cfg_get, is_dict, shown_field, resolve_field,
  to_number, float_of,
}
use stonefold.Gates.Guards.{any_equal}

-- What `except (MissingValueError, ConditionRuntimeError)` makes of a value: a failure in place of
-- either, any other exception as it is.
abbrev pub caught : {A : Type 0} → Eval A → GateResult → (A → Eval GateResult) → Eval GateResult
caught (value a) failure k = k a
caught (raise foreign) failure k = raise foreign
caught (raise missing) failure k = value failure
caught (raise runtime) failure k = value failure

unfoldable pub with_fields : GateResult → List String → GateResult
with_fields r fs = record r { fields = fs }

-- mx is not None and test(float(mx))
limit_test : GatePy → (ℕ → Bool) → Option Value → Eval Bool
limit_test py test none = value false
limit_test py test (some Value.null) = value false
limit_test py test (some v) = float_of py v >>= (λ x. value (test x))

limits : GatePy → Value → List String → ℕ → Eval GateResult
unfolding limit_test with_fields
limits py cfg fs num = limit_test py (λ x. py.ops.float_lt x num) (cfg_get cfg "max") >>= (λ over.
    if over
    then value (with_fields (failed "valueLimit" "exceeds max") fs)
    else limit_test py (λ x. py.ops.float_lt num x) (cfg_get cfg "min") >>= (λ under.
      value (
        if under
        then with_fields (failed "valueLimit" "below min") fs
        else passed "valueLimit" "")))

-- text in v
unfoldable pub in_value : GatePy → String → Value → Eval Bool
in_value py s (Value.list vs) = value (any_equal py (Value.str s) (to_list vs))
in_value py s (Value.str t) = value (text_in s t)
in_value py s (Value.dict d) = value (elim (get d s) [ none ↦ false | some _ ↦ true ])
in_value py s v = raise foreign

within_range : Thing → Option ℕ → GatePy → Bool
within_range (range s e) (some now) py =
    within py.ops s e (to_minutes py.ops (plain (Value.instant now)))
within_range _ _ py = false

-- "hours", of a gate whose day is allowed
hours_gate : GatePy → ℕ → Option Value → Eval GateResult
unfolding within_range
hours_gate py now none = value (passed "window" "")
hours_gate py now (some hours) =
    if truthy hours
    then caught (make_window py.ops (plain hours)) (failed "window" "fail-closed") (λ rng. value (
        if within_range rng (some now) py
        then passed "window" ""
        else failed "window" "outside allowed hours"))
    else value (passed "window" "")

days_gate : GatePy → ℕ → Option Value → Eval Bool
unfolding in_value
days_gate py now none = value true
days_gate py now (some days) =
    if truthy days then in_value py (py.weekday_of now) days else value true

module _ {W : Type 0} (py : GatePy) (ctx : GateContext W) where
  unfoldable pub value_limit : Value → Eval GateResult
  unfolding limits with_fields
  value_limit cfg =
      let field = cfg_get cfg "field" in
      let fs = shown_field py field in
      caught (resolve_field ctx.request.eval_ctx field >>= to_number py)
        (with_fields (failed "valueLimit" "fail-closed") fs) (limits py cfg fs)

  run_hook : Option (Fields → W → Call Bool × W) → W → Call Bool × W
  run_hook none w = (raised, w)
  run_hook (some hook) w = hook ctx.request.resolved.payload w

  -- the loop of `content_check`
  unfoldable pub run_hooks : List Value → W → GateResult × W
  unfolding run_hook
  run_hooks [] w = (passed "contentCheck" "", w)
  run_hooks (v ∷ vs) w =
      let (answer, w') = run_hook (ctx.hooks (py.ops.text_of (plain v))) w in
      elim answer [
        | raised ↦ elim (is_closed ctx.request.failure_mode) [
          | true ↦ (failed "contentCheck" "fail-closed", w')
          | false ↦ run_hooks vs w'
        ]
        | ok clean ↦ elim clean [
          | true ↦ run_hooks vs w'
          | false ↦ (failed "contentCheck" "blocked the content", w')
        ]
      ]

  unfoldable pub content_check : Value → W → Answer W
  content_check (Value.list vs) w = let (r, w') = run_hooks (to_list vs) w in (value r, w')
  content_check v w = let (r, w') = run_hooks (v ∷ []) w in (value r, w')

  unfoldable pub window_gate : Value → Eval GateResult
  unfolding hours_gate days_gate
  window_gate cfg = elim ctx.request.env.now [
    | none ↦ value (failed "window" "fail-closed: no clock")
    | some now ↦
        if is_dict cfg
        then days_gate py now (cfg_get cfg "days") >>= (λ day.
          if day
          then hours_gate py now (cfg_get cfg "hours")
          else value (failed "window" "not in allowed days"))
        else value (failed "window" "fail-closed: gate needs {days?, hours?}")
  ]

  explained : Option Value → Bool
  explained (some (Value.str s)) = not (str_eq (py.ops.strip s) "")
  explained _ = false

  is_false : Value → Bool
  is_false (Value.bool b) = not b
  is_false v = false

  unfoldable pub require_explanation : Value → GateResult
  unfolding explained is_false
  require_explanation cfg =
      if is_false cfg || explained (get ctx.request.resolved.payload "explanation")
      then passed "requireExplanation" ""
      else failed "requireExplanation" "action carries no recorded rationale"
