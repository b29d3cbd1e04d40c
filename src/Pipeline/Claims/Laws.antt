-- ===== src/Pipeline/Claims/Laws.antt =====
-- Reserving, releasing and consuming write no record; on readable evidence they return.
use stonefold.Prelude.{◌≡◌, refl, String, Option, none, some}
use stonefold.Values.{Value, Fields, get, py_str}
use stonefold.Models.Records.{Capability, ObligationClaim}
use stonefold.Failure.{Call, ok, raised}
use stonefold.Obligation.{ReserveOutcome}
use stonefold.Pipeline.{reserve_asked, ask, Deps, Adapter}
use stonefold.Pipeline.Claims.{
  first_ref, capability_of, adapter_at, claim_of, answer, reserve_with, reserve_claim, release_at,
  release_claim, consume_at, consume_claim,
}
use stonefold.Pipeline.Audited.{Settles, Settled-bind, Settled-ask, Settled-return, Anything}

-- Match evidence has the four entries that the reservation reads.
pub record IsReadable {W : Type 0} (d : Deps W) (plan : Fields) : Type 0 where
  pub name : Value
  pub ref : Value
  pub consume : Value
  pub capability : Value
  pub class_ : Capability
  pub has_registry : get plan "registry" ≡ some name
  pub has_ref : first_ref (get plan "refs") ≡ some ref
  pub has_consume : get plan "consume" ≡ some consume
  pub has_capability : get plan "capability" ≡ some capability
  pub is_class : capability_of (py_str d.text capability) ≡ some class_

module _ {W : Type 0} (d : Deps W) where
  claim_of-Settles :
      (plan : Fields) (registry ref intent : String)
      → IsReadable d plan
      → Settles Anything (claim_of d plan registry ref intent)
  unfolding claim_of
  claim_of-Settles plan registry ref intent h w =
      rw (claim_of, h.has_consume, h.has_capability, h.is_class) (Settled-return _ tt w)

  answer-Settles :
      (plan : Fields) (registry ref intent : String) (c : Call ReserveOutcome)
      → IsReadable d plan
      → Settles Anything (answer d plan registry ref intent c)
  unfolding answer
  answer-Settles plan registry ref intent raised h = Settled-return _ tt
  answer-Settles plan registry ref intent (ok ReserveOutcome.already_reserved) h =
      Settled-return _ tt
  answer-Settles plan registry ref intent (ok ReserveOutcome.already_consumed) h =
      Settled-return _ tt
  answer-Settles plan registry ref intent (ok ReserveOutcome.reserved) h =
      claim_of-Settles plan registry ref intent h

  reserve_with-Settles :
      (plan : Fields) (registry ref : String) (adapter : Option (Adapter W))
      → IsReadable d plan
      → Settles Anything (reserve_with d plan registry ref adapter)
  unfolding reserve_with
  reserve_with-Settles plan registry ref none h w = Settled-return _ tt w
  reserve_with-Settles plan registry ref (some adapter) h w =
      let intent = (d.new_intent w).0 in
      Settled-bind (ask (reserve_asked registry ref intent) (adapter.reserve ref intent))
        (answer d plan registry ref intent) (Settled-ask {P = Anything} _ _ refl (λ _. tt))
        (λ c _. answer-Settles plan registry ref intent c h) (d.new_intent w).1

  pub reserve_claim-Settles :
      (plan : Fields) → IsReadable d plan → Settles Anything (reserve_claim d plan)
  unfolding reserve_claim
  reserve_claim-Settles plan h w =
      rw (reserve_claim, h.has_registry, h.has_ref)
        (reserve_with-Settles plan _ _ (adapter_at d (py_str d.text h.name)) h w)

  release_at-Settles :
      (o : Option (Adapter W)) (c : ObligationClaim) → Settles Anything (release_at d o c)
  unfolding release_at
  release_at-Settles none c = Settled-return tt tt
  release_at-Settles (some adapter) c =
      Settled-bind _ _ (Settled-ask {P = Anything} _ _ refl (λ _. tt)) (λ _ _. Settled-return tt tt)

  pub release_claim-Settles : (c : Option ObligationClaim) → Settles Anything (release_claim d c)
  unfolding release_claim
  release_claim-Settles none = Settled-return tt tt
  release_claim-Settles (some c) = release_at-Settles (adapter_at d c.registry) c

  consume_at-Settles :
      (o : Option (Adapter W)) (c : ObligationClaim) → Settles Anything (consume_at d o c)
  unfolding consume_at
  consume_at-Settles none c = Settled-return _ tt
  consume_at-Settles (some adapter) c =
      Settled-bind _ _ (Settled-ask {P = Anything} _ _ refl (λ _. tt)) (λ _ _. Settled-return _ tt)

  pub consume_claim-Settles : (c : Option ObligationClaim) → Settles Anything (consume_claim d c)
  unfolding consume_claim
  consume_claim-Settles none = Settled-return _ tt
  consume_claim-Settles (some c) = consume_at-Settles (adapter_at d c.registry) c
