-- ===== src/Gates/Reads.antt =====
-- stonefold_gates/reads.py: the sources that a gate reads, verified before its checks run. The ages
-- of a stale source and the reason of an outage are left out of the evidence.
use stonefold.Prelude.{
  ℕ, ◌+◌, String, Option, none, some, List, [], ◌∷◌, if◌then◌else◌, str_eq, leb,
}
use stonefold.Values.{Value, Fields, field, empty, get, truthy, to_list}
use stonefold.Models.Enums.{Outcome}
use stonefold.Failure.{Call, ok, raised}
use stonefold.Condition.Evaluate.{Eval, value, ◌>>=◌, plain}
use stonefold.Gates.{GatePy, CheckResult, GateContext, window_seconds}

pub record ReadDecl : Type 0 where
  pub source : String
  pub freshness : Option ℕ
  pub on_stale : String

-- str(d.get(key, default))
unfoldable pub text_or : GatePy → Fields → String → String → String
text_or py d key default = elim (get d key) [ none ↦ default | some v ↦ py.ops.text_of (plain v) ]

freshness_of : GatePy → Option Value → Eval (Option ℕ)
freshness_of py none = value none
freshness_of py (some v) =
    if truthy v
    then window_seconds py (py.ops.text_of (plain v)) >>= (λ s. value (some s))
    else value none

read_of : GatePy → Fields → Value → Eval (List ReadDecl)
unfolding freshness_of text_or
read_of py d source =
    if truthy source
    then freshness_of py (get d "freshness") >>= (λ fresh. value (
        record {
          source = py.ops.text_of (plain source);
          freshness = fresh;
          on_stale = text_or py d "onStale" "hold";
        }
        ∷ []))
    else value []

entry_reads : GatePy → Value → Eval (List ReadDecl)
unfolding read_of
entry_reads py (Value.str s) =
    value (record { source = s; freshness = none; on_stale = "hold" } ∷ [])
entry_reads py (Value.dict d) = elim (get d "source") [
  | none ↦ value []
  | some source ↦ read_of py d source
]
entry_reads py v = value []

append_reads : List ReadDecl → List ReadDecl → List ReadDecl
append_reads [] ds = ds
append_reads (r ∷ rs) ds = r ∷ append_reads rs ds

entries_reads : GatePy → List Value → Eval (List ReadDecl)
unfolding entry_reads append_reads
entries_reads py [] = value []
entries_reads py (v ∷ vs) =
    entry_reads py v >>= (λ rs. entries_reads py vs >>= (λ ds. value (append_reads rs ds)))

-- `parse_reads`
unfoldable pub parse_reads : GatePy → Option Value → Eval (List ReadDecl)
unfolding entries_reads
parse_reads py (some (Value.list vs)) = entries_reads py (to_list vs)
parse_reads py _ = value []

-- `_verdict`
unfoldable pub verdict_of : String → String → Fields → Option CheckResult
verdict_of disposition code evidence =
    if str_eq disposition "allow"
    then none
    else if str_eq disposition "deny"
    then some (record { outcome = Outcome.fail; code = code; evidence = some evidence })
    else some (record { outcome = Outcome.hold; code = code; evidence = some evidence })

about : ReadDecl → Fields
about decl = field "source" (Value.str decl.source) empty

unavailable : String → ReadDecl → Option CheckResult
unfolding about verdict_of
unavailable on_unavailable decl = verdict_of on_unavailable "SOURCE_UNAVAILABLE" (about decl)

-- a source that was read, with its date and the clock
unfoldable pub judge_read : String → ReadDecl → Option ℕ → Option ℕ → Option CheckResult
unfolding about unavailable
judge_read on_unavailable decl now as_of = elim decl.freshness [
  | none ↦ none
  | some fresh ↦ elim as_of [
    | none ↦ verdict_of decl.on_stale "SOURCE_UNDATED" (about decl)
    | some at ↦ elim now [
      | none ↦ unavailable on_unavailable decl
      | some t ↦
          if leb t (at + fresh)
          then none
          else verdict_of decl.on_stale "SOURCE_STALE"
              (field "source" (Value.str decl.source) (field "asOf" (Value.instant at) empty))
    ]
  ]
]

module _ {W : Type 0} where
  read_source :
      Option (W → Call (Option ℕ) × W) → String → ReadDecl → Option ℕ → W → Option CheckResult × W
  unfolding unavailable
  read_source none on_unavailable decl now w = (unavailable on_unavailable decl, w)
  read_source (some as_of) on_unavailable decl now w =
      let (answer, w') = as_of w in
      (
        elim answer [
          | raised ↦ unavailable on_unavailable decl
          | ok date ↦ judge_read on_unavailable decl now date
        ],
        w',
      )

  -- `check_reads`: the first source that is not trustworthy decides
  unfoldable pub check_reads : List ReadDecl → String → GateContext W → W → Option CheckResult × W
  unfolding read_source
  check_reads [] on_unavailable ctx w = (none, w)
  check_reads (decl ∷ decls) on_unavailable ctx w =
      let (verdict, w') =
        read_source (ctx.sources decl.source) on_unavailable decl ctx.request.env.now w in
      elim verdict [ none ↦ check_reads decls on_unavailable ctx w' | some r ↦ (some r, w') ]
