-- ===== src/Gates/Sets.antt =====
-- stonefold_gates/gates.py: allowlist, denylist and disclosure.
use stonefold.Prelude.{
  ℕ, suc, String, Bool, true, false, Option, none, some, List, [], ◌∷◌, if◌then◌else◌, str_eq,
  contains, ltb,
}
use stonefold.Values.{Value}
use stonefold.Models.Records.{GateResult}
use stonefold.Condition.Evaluate.{Eval, value, raise, missing, runtime, foreign, ◌>>=◌, plain}
use stonefold.Gates.{
  GatePy, GateRegistry, GateContext, passed, failed, cfg_get, is_dict, shown_field, resolve_field,
}
use stonefold.Gates.Guards.{listed}
use stonefold.Gates.Single.{caught, with_fields, in_value}

members_of : List (String × List String) → String → List String
members_of [] name = []
members_of ((n, ms) ∷ rest) name =
    let later = members_of rest name in if str_eq n name then ms else later

-- `named_set`; a list or a dict is no key
unfoldable pub named_set : GateRegistry → Value → Eval (List String)
unfolding members_of
named_set r (Value.str name) = value (members_of r.sets name)
named_set r (Value.list vs) = raise foreign
named_set r (Value.dict d) = raise foreign
named_set r v = value []

unfoldable pub texts_of : GatePy → List Value → List String
texts_of py [] = []
texts_of py (v ∷ vs) = py.ops.text_of (plain v) ∷ texts_of py vs

listed_members : GatePy → Option Value → Eval (List String)
unfolding texts_of
listed_members py none = value []
listed_members py (some v) = listed v >>= (λ vs. value (texts_of py vs))

members : GatePy → GateRegistry → Value → Option Value → Eval (List String)
unfolding listed_members
members py r cfg none = listed_members py (cfg_get cfg "values")
members py r cfg (some Value.null) = listed_members py (cfg_get cfg "values")
members py r cfg (some name) = named_set r name

index_of : List String → String → Option ℕ
index_of [] label = none
index_of (c ∷ cs) label =
    let later = index_of cs label in
    if str_eq c label then some 0 else elim later [ none ↦ none | some i ↦ some (suc i) ]

-- `classification_rank`
unfoldable pub classification_rank : GateRegistry → String → Option ℕ
unfolding index_of
classification_rank r label = index_of r.classifications label

-- `_disclosure_decide`
sink_permitted : GatePy → Option Value → Option String → Eval Bool
unfolding in_value
sink_permitted py none sink = value true
sink_permitted py (some Value.null) sink = value true
sink_permitted py (some allowed) none = value false
sink_permitted py (some allowed) (some s) = in_value py s allowed

unfoldable pub disclosure_decide : GatePy → Value → Option String → Eval GateResult
unfolding sink_permitted
disclosure_decide py cfg sink = sink_permitted py (cfg_get cfg "allowSink") sink >>= (λ permitted.
    value
      (if permitted then passed "disclosure" "" else failed "disclosure" "sink not in allowSink"))

module _ {W : Type 0} (py : GatePy) (ctx : GateContext W) where
  membership_verdict : Bool → List String → Bool → GateResult
  unfolding with_fields
  membership_verdict true fs in_set =
      if in_set then with_fields (failed "denylist" "is denylisted") fs else passed "denylist" ""
  membership_verdict false fs in_set =
      if in_set then passed "allowlist" "" else with_fields (failed "allowlist" "not in set") fs

  -- `_membership`
  unfoldable pub membership : Bool → Value → Eval GateResult
  unfolding membership_verdict members with_fields
  membership deny cfg =
      let name = if deny then "denylist" else "allowlist" in
      let field = cfg_get cfg "field" in
      let fs = shown_field py field in
      if is_dict cfg
      then caught (resolve_field ctx.request.eval_ctx field)
          (with_fields (failed name "fail-closed") fs)
          (λ v.
            members py ctx.registry cfg (cfg_get cfg "set")
            >>= (λ ms. value (membership_verdict deny fs (contains ms (py.ops.text_of (plain v))))))
      else value (failed name "fail-closed: gate needs {field, set}")

  ranks : Option ℕ → Option ℕ → Option GateResult
  ranks none r = some (failed "disclosure" "fail-closed: classification not in the declared order")
  ranks (some m) none =
      some (failed "disclosure" "fail-closed: classification not in the declared order")
  ranks (some m) (some r) =
      if ltb m r then some (failed "disclosure" "result classification exceeds ceiling") else none

  rank_check : String → Option GateResult
  unfolding ranks
  rank_check ceiling =
      ranks (classification_rank ctx.registry ceiling)
        (classification_rank ctx.registry ctx.request.resolved.attrs.result_sensitivity)

  -- `_classification_check`
  unfoldable pub classification_check : Value → Eval (Option GateResult)
  unfolding rank_check
  classification_check (Value.str label) = elim (classification_rank ctx.registry label) [
    | some m ↦ value (rank_check label)
    | none ↦ elim (resolve_field ctx.request.eval_ctx (some (Value.str label))) [
      | value v ↦ value (rank_check (py.ops.text_of (plain v)))
      | raise e ↦ elim e [
        | foreign ↦ raise foreign
        | missing ↦ value (some (failed "disclosure" "fail-closed"))
        | runtime ↦ value (some (failed "disclosure" "fail-closed"))
      ]
    ]
  ]
  classification_check v = value (some (failed "disclosure" "fail-closed: bad maxClassification"))

  ceiling_verdict : Option Value → Eval (Option GateResult)
  ceiling_verdict none = value none
  ceiling_verdict (some Value.null) = value none
  ceiling_verdict (some v) = classification_check v

  unfoldable pub disclosure : Value → Eval GateResult
  unfolding ceiling_verdict
  disclosure cfg = ceiling_verdict (cfg_get cfg "maxClassification") >>= (λ verdict. elim verdict [
    | some r ↦ value r
    | none ↦ disclosure_decide py cfg ctx.request.env.sink
  ])
