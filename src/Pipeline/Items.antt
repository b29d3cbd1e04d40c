-- ===== src/Pipeline/Items.antt =====
-- `enforce` with its fan-out: `_items_declaration`, `_item_key`, `_call_advice`, `_worst` and
-- `_enforce_per_item`.
pub mod FanOut
use stonefold.Prelude.{
  ℕ, String, Bool, true, false, not, Option, none, some, List, [], ◌∷◌, map, any, keep, find, ◌&&◌,
  if◌then◌else◌, str_eq, ltb, length, is_some, or_else,
}
use stonefold.Values.{Value, Items, Fields, get, put, to_list, of_list, PyText, py_str}
use stonefold.Models.Enums.{
  Decision, EnforcementMode, Coverage, is_refusal, is_hold, is_halt, is_allow,
}
use stonefold.Models.Records.{
  RawCall, ItemsDef, ResolvedAction, Actor, Session, RequestEnv, EvalResult, ItemVerdict, Advice,
  ItemAdvice, ItemAdviceEntry,
}
use stonefold.Reasons.{classify}
use stonefold.Pipeline.{Act, ◌>>=◌, return, raise, Deps, Decided, Sink, AdvisoryAudit, fresh_audit}
use stonefold.Pipeline.Advised.{as_advised}
use stonefold.Pipeline.Decide.{decide}
use stonefold.Pipeline.Commit.{Ending, ending_of, terminal}
use stonefold.Pipeline.Enforce.{commit_stamped, enforce_whole}
use stonefold.Pipeline.Batch.{each}

values_of : Option Value → List Value
values_of (some (Value.list vs)) = to_list vs
values_of _ = []

declared_items : RawCall → Option ItemsDef → Option (ItemsDef × List Value)
unfolding values_of
declared_items call none = none
declared_items call (some declared) =
    let vs = values_of (get call.payload declared.field) in
    if declared.independent && ltb 1 (length vs) then some (declared, vs) else none

-- `_items_declaration`, with the values to fan out
unfoldable pub items_declaration : {W : Type 0} → Deps W → RawCall → Option (ItemsDef × List Value)
unfolding declared_items
items_declaration d call = elim (d.resolve call) [
  | none ↦ none
  | some a ↦ declared_items call a.items
]

-- `_item_key`
unfoldable pub item_key : PyText → ItemsDef → Value → String
item_key text declared (Value.dict fields) =
    if str_eq declared.key ""
    then py_str text (Value.dict fields)
    else py_str text (or_else (get fields declared.key) (Value.str ""))
item_key text declared v = py_str text v

-- {**data, field: values}
abbrev with_values : ItemsDef → List Value → Fields → Fields
with_values declared vs payload = put payload declared.field (Value.list (of_list vs))

-- One item with its verdict and, in an advisory deployment, its advice.
pub record Item : Type 0 where
  pub name : String
  pub value : Value
  pub decided : Decided
  pub advice : Option Advice
  pub coverage : Coverage

-- `_worst`
unfoldable pub worst : List Decision → Decision
worst ds =
    if any is_halt ds
    then Decision.halt
    else if any is_refusal ds
    then Decision.deny
    else if any is_hold ds
    then Decision.hold
    else Decision.allow

abbrev pub same_decision : Decision → Decision → Bool
same_decision Decision.halt d = is_halt d
same_decision Decision.deny d = is_refusal d && not (is_halt d)
same_decision Decision.hold d = is_hold d
same_decision Decision.allow d = is_allow d

advised_entries : List Item → List (Item × Advice)
advised_entries [] = []
advised_entries (i ∷ is) =
    let rest = advised_entries is in elim i.advice [ none ↦ rest | some a ↦ (i, a) ∷ rest ]

-- `_item_advice_entry`
advice_entry : Item × Advice → ItemAdviceEntry
advice_entry (i, a) = record {
  item = i.name;
  decision = a.decision;
  rule = a.rule;
  reason_code = a.reason_code;
  retry_class = a.retry_class;
  coverage = elim i.coverage [
    | Coverage.unjudged ↦ some Coverage.unjudged
    | Coverage.judged ↦ none
  ];
}

abbrev decision_of : Item × Advice → Decision
decision_of (i, a) = a.decision

call_advice_of : ℕ → List (Item × Advice) → Option Advice × Option ItemAdvice
unfolding advice_entry
call_advice_of applied [] = (none, none)
call_advice_of applied (e ∷ es) =
    let w = worst (map decision_of (e ∷ es)) in
    (
      elim (find (λ x. same_decision w (decision_of x)) (e ∷ es)) [
        | none ↦ none
        | some (i, a) ↦ some a
      ],
      some (record {
        would_apply = applied;
        would_refuse = length (e ∷ es);
        items = map advice_entry (e ∷ es);
      }),
    )

-- `_call_advice` of the applied items
unfoldable pub call_advice : List Item → Option Advice × Option ItemAdvice
unfolding call_advice_of advised_entries
call_advice is =
    call_advice_of (length (keep (λ (i : Item). not (is_some i.advice)) is)) (advised_entries is)

is_unjudged : Item → Bool
is_unjudged i = elim i.coverage [ Coverage.unjudged ↦ true | Coverage.judged ↦ false ]

-- the sinks of one item's record and of the applied call's
unfoldable pub item_sink : EnforcementMode → Item → Sink
item_sink EnforcementMode.enforced i = none
item_sink EnforcementMode.advisory i =
    some (record fresh_audit { advice = i.advice; coverage = i.coverage })

unfoldable pub call_sink : EnforcementMode → List Item → Sink
unfolding is_unjudged
call_sink EnforcementMode.enforced is = none
call_sink EnforcementMode.advisory is =
    let (advice, item_advice) = call_advice is in
    some (record {
      advice = advice;
      batch_advice = none;
      item_advice = item_advice;
      coverage = if any is_unjudged is then Coverage.unjudged else Coverage.judged;
    })

-- the applied call's template: under advisory, an item that enforcement would have allowed
unfoldable pub template_of : EnforcementMode → Item → List Item → Item
template_of EnforcementMode.enforced i is = i
template_of EnforcementMode.advisory i is =
    or_else (find (λ (j : Item). not (is_some j.advice)) (i ∷ is)) i
