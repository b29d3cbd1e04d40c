-- ===== src/Obligation.antt =====
-- stonefold_core/obligation.py and stonefold_store/obligations.py: the registry of obligations that
-- the gateway reserves and consumes from. The clock is read once for each operation, and the
-- receipt, which uuid4 gives, is an argument. A ref with no entry in `_state` reads as a blank line.
pub mod Spending
pub mod Exclusive
use Prim.Native.Char.{Char}
use stonefold.Prelude.{
  ℕ, ◌+◌, ◌-◌, String, Bool, true, false, not, Option, none, some, List, [], ◌∷◌, ◌&&◌, ◌||◌,
  if◌then◌else◌, str_eq, leb, is_some, split, all,
}
use stonefold.Values.{Value, Fields, get, put, empty, truthy, PyText, py_str, Items, to_list}
use stonefold.Models.Enums.{Outcome, is_pass}
use stonefold.Models.Records.{GateResult, Capability}

pub data ReserveOutcome : Type 0 where
  reserved already_reserved already_consumed : ReserveOutcome

pub data ReleaseOutcome : Type 0 where
  released not_held : ReleaseOutcome

-- `ConsumeResult`: the receipt stands with CONSUMED alone
pub data ConsumeResult : Type 0 where
  consumed : Option String → ConsumeResult
  already_consumed : ConsumeResult

pub record LineState : Type 0 where
  pub reserved_by : Option String
  pub reserved_at : Option ℕ
  pub consumed_by : Option String
  pub receipt : Option String

abbrev pub blank : LineState
blank = record { reserved_by = none; reserved_at = none; consumed_by = none; receipt = none }

pub record Registry : Type 0 where
  pub records : List (String × Fields)
  pub lines : List (String × LineState)
  pub state_path : Option String
  pub ttl : Option ℕ

unfoldable pub line_at : List (String × LineState) → String → LineState
line_at [] ref = blank
line_at ((r, st) ∷ rest) ref = let later = line_at rest ref in if str_eq r ref then st else later

unfoldable pub set_line : List (String × LineState) → String → LineState → List (String × LineState)
set_line [] ref st = (ref, st) ∷ []
set_line ((r, old) ∷ rest) ref st =
    let later = set_line rest ref st in if str_eq r ref then (r, st) ∷ rest else (r, old) ∷ later

child : Option Value → Fields
child (some (Value.dict d)) = d
child _ = empty

-- `set_field` along the parts of the path: a node that is no dictionary is replaced by one
set_path : Fields → List String → Value → Fields
unfolding child
set_path node [] v = node
set_path node (last ∷ []) v = put node last v
set_path node (part ∷ next ∷ parts) v =
    put node part (Value.dict (set_path (child (get node part)) (next ∷ parts) v))

abbrev dot : Char
dot = "."

mark_records : List (String × Fields) → String → String → String → List (String × Fields)
unfolding set_path
mark_records [] ref path state = []
mark_records ((r, fields) ∷ rest) ref path state =
    let later = mark_records rest ref path state in
    if str_eq r ref
    then (r, set_path fields (split path dot) (Value.str state)) ∷ rest
    else (r, fields) ∷ later

-- `_mark`: nothing without a state path or a record
unfoldable pub mark : Registry → String → String → Registry
unfolding mark_records
mark s ref state = elim s.state_path [
  | none ↦ s
  | some path ↦ record s { records = mark_records s.records ref path state }
]

-- (clock() - reserved_at).total_seconds() >= ttl; the adapter's clock may run backwards
abbrev pub is_due : Option ℕ → Option ℕ → ℕ → Bool
is_due (some ttl) (some at) now = leb (at + ttl) now
is_due none at now = false
is_due (some ttl) none now = false

unfoldable pub expires : Registry → LineState → ℕ → Bool
expires s st now =
    is_some st.reserved_by && not (is_some st.consumed_by) && is_due s.ttl st.reserved_at now

abbrev freed : LineState → LineState
freed st = record st { reserved_by = none; reserved_at = none }

-- `_expire_lazily`
unfoldable pub expire_lazily : Registry → String → ℕ → Registry
expire_lazily s ref now =
    let st = line_at s.lines ref in
    if expires s st now
    then mark (record s { lines = set_line s.lines ref (freed st) }) ref "unconsumed"
    else s

-- st.reserved_by is None or st.reserved_by == intent_id
abbrev pub free_for : Option String → String → Bool
free_for none intent = true
free_for (some i) intent = str_eq i intent

abbrev pub held_by : Option String → String → Bool
held_by none intent = false
held_by (some i) intent = str_eq i intent

reserve_line : Registry → String → String → ℕ → LineState → Registry × ReserveOutcome
reserve_line s ref intent now st =
    if is_some st.consumed_by
    then (s, ReserveOutcome.already_consumed)
    else if free_for st.reserved_by intent
    then (
      mark
          (record s {
            lines =
                set_line s.lines ref
                  (record st { reserved_by = some intent; reserved_at = some now });
          })
          ref "reserved",
      ReserveOutcome.reserved,
    )
    else (s, ReserveOutcome.already_reserved)

unfoldable pub reserve : Registry → String → String → ℕ → Registry × ReserveOutcome
unfolding reserve_line
reserve s ref intent now =
    let s' = expire_lazily s ref now in reserve_line s' ref intent now (line_at s'.lines ref)

consume_line : Registry → String → String → String → LineState → Registry × ConsumeResult
consume_line s ref intent receipt st =
    if is_some st.consumed_by
    then (s, if held_by st.consumed_by intent then consumed st.receipt else already_consumed)
    else if not (free_for st.reserved_by intent)
    then (s, already_consumed)
    else (
      mark
          (record s {
            lines = set_line s.lines ref (record {
              reserved_by = none;
              reserved_at = none;
              consumed_by = some intent;
              receipt = some receipt;
            });
          })
          ref "consumed",
      consumed (some receipt),
    )

unfoldable pub consume : Registry → String → String → ℕ → String → Registry × ConsumeResult
unfolding consume_line
consume s ref intent now receipt =
    let s' = expire_lazily s ref now in consume_line s' ref intent receipt (line_at s'.lines ref)

release_line : Registry → String → String → LineState → Registry × ReleaseOutcome
release_line s ref intent st =
    if not (held_by st.reserved_by intent) || is_some st.consumed_by
    then (s, ReleaseOutcome.not_held)
    else (
      mark (record s { lines = set_line s.lines ref (freed st) }) ref "unconsumed",
      ReleaseOutcome.released,
    )

unfoldable pub release : Registry → String → String → ℕ → Registry × ReleaseOutcome
unfolding release_line
release s ref intent now =
    let s' = expire_lazily s ref now in release_line s' ref intent (line_at s'.lines ref)

-- the first loop of `query`
unfoldable pub expire_all : Registry → List (String × Fields) → ℕ → Registry
expire_all s [] now = s
expire_all s ((ref, fields) ∷ rest) now = expire_all (expire_lazily s ref now) rest now

-- ev and ev.get("consume") and ev.get("consume") != "none" and ev.get("refs")
is_none_text : Value → Bool
is_none_text (Value.str s) = str_eq s "none"
is_none_text v = false

is_set : Option Value → Bool
is_set none = false
is_set (some v) = truthy v

unfoldable pub consumable : Fields → Bool
unfolding is_none_text is_set
consumable ev = elim (get ev "consume") [
  | none ↦ false
  | some c ↦ truthy c && not (is_none_text c) && is_set (get ev "refs")
]

-- the evidence that entitles one gate's result to a reservation
unfoldable pub plan_of : GateResult → Option Fields
unfolding consumable
plan_of g = elim g.evidence [
  | none ↦ none
  | some ev ↦
      if str_eq g.gate "requireMatch" && is_pass g.outcome && consumable ev then some ev else none
]

-- `claim_evidence`: the first such evidence of a trace
unfoldable pub claim_evidence : List GateResult → Option Fields
claim_evidence [] = none
claim_evidence (g ∷ gs) =
    let rest = claim_evidence gs in elim (plan_of g) [ some ev ↦ some ev | none ↦ rest ]
