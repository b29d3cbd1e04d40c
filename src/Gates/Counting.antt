-- ===== src/Gates/Counting.antt =====
-- stonefold_gates/gates.py: the gates over the counter store. An exception of any kind fails them.
use stonefold.Prelude.{
  ℕ, ℤ, pos, negsuc, ltb, String, Bool, true, false, Option, none, some, if◌then◌else◌, ◌+s◌,
}
use stonefold.Values.{Value, get, truthy}
use stonefold.Models.Records.{GateResult}
use stonefold.Failure.{Call, ok, raised}
use stonefold.Condition.Evaluate.{
  EvalError, missing, Eval, value, raise, foreign, ◌>>=◌, plain, bool_int,
}
use stonefold.Gates.{
  GatePy, GateContext, passed, failed, cfg_get, is_dict, resolve_field, float_of, now_of,
  window_seconds, parse_rate,
}

or_missing : Option Value → Eval Value
or_missing none = raise missing
or_missing (some v) = value v

or_foreign : Option ℤ → Eval ℤ
or_foreign none = raise foreign
or_foreign (some n) = value n

-- int(v)
unfoldable pub int_value : GatePy → Value → Eval ℤ
unfolding or_foreign
int_value py (Value.int n) = value n
int_value py (Value.bool b) = value (bool_int b)
int_value py (Value.float x) = or_foreign (py.truncate x)
int_value py (Value.str s) = or_foreign (py.ops.int_of_text s)
int_value py v = raise foreign

-- count > limit
above : ℕ → ℤ → Bool
above count (pos n) = ltb n count
above count (negsuc n) = true

-- what either `except` makes of an exception
uncounted : String → EvalError → GateResult
uncounted name foreign = failed name "fail-closed: counter store unavailable"
uncounted name _ = failed name "fail-closed"

-- cfg.get("limit") if isinstance(cfg, dict) else cfg
limit_of : Value → Value
limit_of cfg =
    if is_dict cfg then elim (cfg_get cfg "limit") [ none ↦ Value.null | some v ↦ v ] else cfg

module _ {W : Type 0} (py : GatePy) (ctx : GateContext W) where
  -- str(resolve_field(path)) if path else ""
  field_text : Option Value → Eval String
  field_text none = value ""
  field_text (some path) =
      if truthy path
      then resolve_field ctx.request.eval_ctx (some path)
        >>= (λ v. value (py.ops.text_of (plain v)))
      else value ""

  action_text : String
  action_text = elim ctx.request.resolved.action [ none ↦ "None" | some a ↦ a ]

  -- the key, the instant and the window of a count
  pub record Counted : Type 0 where
    pub key : String
    pub now : ℕ
    pub window : ℕ
    pub limit : ℕ

  exceeds : String → ℕ → Call ℕ → GateResult
  exceeds name limit raised = failed name "fail-closed: counter store unavailable"
  exceeds name limit (ok count) =
      if py.count_exceeds count limit then failed name "limit exceeded" else passed name ""

  counted : String → Eval Counted → W → GateResult × W
  unfolding exceeds uncounted
  counted name (raise e) w = (uncounted name e, w)
  counted name (value c) w =
      let (answer, w') = ctx.hit c.key c.now c.window w in (exceeds name c.limit answer, w')

  count_plan : String → Value → Eval Counted
  unfolding field_text action_text limit_of
  count_plan name cfg =
      parse_rate py (py.ops.text_of (plain (limit_of cfg))) >>= (λ (limit, window).
        now_of ctx.request.env >>= (λ now. field_text (cfg_get cfg "per") >>= (λ suffix.
          value (record {
            key = ctx.request.agent +s ":" +s name +s ":" +s action_text +s ":" +s suffix;
            now = now;
            window = window;
            limit = limit;
          }))))

  -- `_count_gate`
  unfoldable pub count_gate : String → Value → W → GateResult × W
  unfolding counted count_plan
  count_gate name cfg w = counted name (count_plan name cfg) w

  is_given : Option Value → Bool
  is_given none = false
  is_given (some v) = truthy v

  -- ":".join(subject)
  joined : Bool → Bool → String → String → String
  joined true true p o = p +s ":" +s o
  joined true false p o = p
  joined false _ p o = o

  subject_text : Option Value → Option Value → Eval String
  unfolding joined is_given
  subject_text per of_ =
      field_text per
      >>= (λ p. field_text of_ >>= (λ o. value (joined (is_given per) (is_given of_) p o)))

  cap_plan : Value → Eval (ℕ × ℕ × String × ℤ)
  unfolding subject_text int_value or_missing
  cap_plan cfg = or_missing (cfg_get cfg "limit") >>= int_value py >>= (λ limit.
      or_missing (cfg_get cfg "window") >>= (λ token.
        window_seconds py (py.ops.text_of (plain token)) >>= (λ window.
          now_of ctx.request.env >>= (λ now.
            subject_text (cfg_get cfg "per") (cfg_get cfg "of")
            >>= (λ subject. value (now, window, subject, limit))))))

  cap_exceeds : ℤ → Call ℕ → GateResult
  unfolding above
  cap_exceeds limit raised = failed "quantityCap" "fail-closed: counter store unavailable"
  cap_exceeds limit (ok count) =
      if above count limit
      then failed "quantityCap" "quantity cap exceeded for subject"
      else passed "quantityCap" ""

  capped : Eval (ℕ × ℕ × String × ℤ) → W → GateResult × W
  unfolding cap_exceeds action_text uncounted
  capped (raise e) w = (uncounted "quantityCap" e, w)
  capped (value (now, window, subject, limit)) w =
      let key = ctx.request.agent +s ":quantityCap:" +s action_text +s ":" +s subject in
      let (answer, w') = ctx.hit key now window w in (cap_exceeds limit answer, w')

  unfoldable pub quantity_cap : Value → W → GateResult × W
  unfolding capped cap_plan field_text
  quantity_cap cfg w =
      if is_dict cfg
      then capped (cap_plan cfg) w
      else (failed "quantityCap" "fail-closed: gate needs {per, limit, window}", w)

  amount_of : Option ℕ → Option Value → Eval ℕ
  amount_of (some cost) v = value cost
  amount_of none none = value py.one
  amount_of none (some v) = float_of py v

  spend_plan : Value → Eval (ℕ × ℕ × ℕ × ℕ)
  unfolding amount_of limit_of
  spend_plan cfg = parse_rate py (py.ops.text_of (plain (limit_of cfg))) >>= (λ (limit, window).
      now_of ctx.request.env >>= (λ now.
        amount_of ctx.request.env.cost (get ctx.request.resolved.payload "_cost")
        >>= (λ amount. value (now, window, amount, limit))))

  spend_exceeds : ℕ → Call ℕ → GateResult
  spend_exceeds limit raised = failed "spendLimit" "fail-closed: counter store unavailable"
  spend_exceeds limit (ok total) =
      if py.ops.float_lt limit total
      then failed "spendLimit" "session spend exceeds limit"
      else passed "spendLimit" ""

  spent : Eval (ℕ × ℕ × ℕ × ℕ) → W → GateResult × W
  unfolding spend_exceeds uncounted
  spent (raise e) w = (uncounted "spendLimit" e, w)
  spent (value (now, window, amount, limit)) w =
      let key = ctx.request.agent +s ":spendLimit:" +s ctx.request.session.id in
      let (answer, w') = ctx.add key amount now window w in (spend_exceeds limit answer, w')

  unfoldable pub spend_limit : Value → W → GateResult × W
  unfolding spent spend_plan
  spend_limit cfg w = spent (spend_plan cfg) w
