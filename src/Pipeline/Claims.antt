-- ===== src/Pipeline/Claims.antt =====
-- The reservation of a matched obligation around a commit: `_reserve_claim`, `_release_claim` and
-- `_consume_claim`. The evidence is a match gate's, whose `refs` is a list; on evidence of another
-- shape the code raises, or indexes a text, and the model raises.
pub mod Laws
use stonefold.Prelude.{
  String, Bool, true, false, Option, none, some, List, [], ◌∷◌, if◌then◌else◌, str_eq,
}
use stonefold.Values.{Value, Items, Fields, get, PyText, py_str}
use stonefold.Models.Records.{Capability, ObligationClaim, Consumption}
use stonefold.Failure.{Call, ok, raised}
use stonefold.Obligation.{ReserveOutcome, ReleaseOutcome, ConsumeResult, consumed, already_consumed}
use stonefold.Pipeline.{
  Event, reserve_asked, release_asked, consume_asked, Act, ◌>>=◌, return, raise, ask, Adapter, Deps,
}

-- `(claim, None)` or `(None, refusal)`
pub data Reservation : Type 0 where
  claimed : ObligationClaim → Reservation
  refusal : String → Reservation

unfoldable pub first_ref : Option Value → Option Value
first_ref (some (Value.list (Items.cons v vs))) = some v
first_ref _ = none

-- Capability(text), which raises on any other text
unfoldable pub capability_of : String → Option Capability
capability_of t =
    if str_eq t "transactional"
    then some Capability.transactional
    else if str_eq t "window"
    then some Capability.window
    else none

-- claim.audit_dict(state)
abbrev pub audit_dict : String → ObligationClaim → Option String → Consumption
audit_dict state claim receipt = record { state = state; claim = claim; receipt = receipt }

module _ {W : Type 0} (d : Deps W) where
  unfoldable pub adapter_at : String → Option (Adapter W)
  adapter_at name = elim d.obligations [ none ↦ none | some find ↦ find name ]

  -- the claim of a reserved line: str(plan["consume"]), Capability(str(plan["capability"]))
  claim_of : Fields → String → String → String → Act W Reservation
  unfolding capability_of
  claim_of plan registry ref intent = elim (get plan "consume") [
    | none ↦ raise
    | some consume ↦ elim (get plan "capability") [
      | none ↦ raise
      | some cap ↦ elim (capability_of (py_str d.text cap)) [
        | none ↦ raise
        | some capability ↦ return (
            claimed (record {
              registry = registry;
              ref = ref;
              consume = py_str d.text consume;
              capability = capability;
              intent_id = intent;
            }))
      ]
    ]
  ]

  answer : Fields → String → String → String → Call ReserveOutcome → Act W Reservation
  unfolding claim_of
  answer plan registry ref intent raised = return (refusal "reservation-unavailable")
  answer plan registry ref intent (ok ReserveOutcome.already_reserved) = return (refusal "no-match")
  answer plan registry ref intent (ok ReserveOutcome.already_consumed) = return (refusal "no-match")
  answer plan registry ref intent (ok ReserveOutcome.reserved) = claim_of plan registry ref intent

  reserve_with : Fields → String → String → Option (Adapter W) → Act W Reservation
  unfolding answer
  reserve_with plan registry ref none w = return (refusal "reservation-unavailable") w
  reserve_with plan registry ref (some adapter) w =
      let (intent, w') = d.new_intent w in
      (ask (reserve_asked registry ref intent) (adapter.reserve ref intent)
          >>= answer plan registry ref intent)
        w'

  unfoldable pub reserve_claim : Fields → Act W Reservation
  unfolding reserve_with first_ref adapter_at
  reserve_claim plan = elim (get plan "registry") [
    | none ↦ raise
    | some name ↦ elim (first_ref (get plan "refs")) [
      | none ↦ raise
      | some ref ↦
          let registry = py_str d.text name in
          reserve_with plan registry (py_str d.text ref) (adapter_at registry)
    ]
  ]

  unfoldable pub release_at : Option (Adapter W) → ObligationClaim → Act W Unit
  release_at none c = return tt
  release_at (some adapter) c =
      ask (release_asked c.registry c.ref c.intent_id) (adapter.release c.ref c.intent_id)
      >>= (λ _. return tt)

  -- best effort: what the adapter answers, an exception included, changes nothing here
  unfoldable pub release_claim : Option ObligationClaim → Act W Unit
  unfolding adapter_at release_at
  release_claim none = return tt
  release_claim (some c) = release_at (adapter_at c.registry) c

  settled : ObligationClaim → Call ConsumeResult → Consumption
  settled c raised = audit_dict "consume-unavailable" c none
  settled c (ok (consumed receipt)) = audit_dict "consumed" c receipt
  settled c (ok already_consumed) = audit_dict "consume-refused" c none

  consume_at : Option (Adapter W) → ObligationClaim → Act W (Option Consumption)
  unfolding settled
  consume_at none c = return (some (audit_dict "consume-unavailable" c none))
  consume_at (some adapter) c =
      ask (consume_asked c.registry c.ref c.intent_id) (adapter.consume c.ref c.intent_id)
      >>= (λ answered. return (some (settled c answered)))

  unfoldable pub consume_claim : Option ObligationClaim → Act W (Option Consumption)
  unfolding adapter_at consume_at
  consume_claim none = return none
  consume_claim (some c) = consume_at (adapter_at c.registry) c
