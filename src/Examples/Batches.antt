-- ===== src/Examples/Batches.antt =====
-- A batch of two payments on one line of a registry that has room for one of them.
use stonefold.Prelude.{
  ◌≡◌, refl, ℕ, ◌+◌, zero, suc, none, some, List, [], ◌∷◌, ◌++◌, any, all, true,
}
use stonefold.Values.{Value, nil, cons, Fields, empty, field, get, truthy, py_str}
use stonefold.Models.Enums.{Decision, EnforcementMode}
use stonefold.Models.Records.{BatchResult, ObligationClaim, Capability}
use stonefold.Failure.{ok, raised}
use stonefold.Obligation.{ReserveOutcome, ReleaseOutcome, claim_evidence, plan_of, consumable}
use stonefold.Pipeline.{Adapter, Deps, Decided, Event, ◌>>=◌}
use stonefold.Pipeline.Claims.{adapter_at, reserve_claim, first_ref, capability_of}
use stonefold.Pipeline.Batch.{position, reserve_op, with_op, pre_pass, reserve_failed, commit_batch}
use stonefold.Pipeline.Batch.Laws.{IsRefusal}
use stonefold.Pipeline.Batch.BackOut.{is_back_out, releases}
use stonefold.Pipeline.Batch.Taken.{taken, refused_reservation-releases}
use stonefold.Examples.Calls.{deps, good}
use stonefold.Examples.GateWorld.{pass_result}
use stonefold.Examples.Fixtures.{payer, session}

-- the plan to consume the line
abbrev plan : Fields
plan = field "registry" (Value.str "invoices") (
    field "refs" (Value.list (cons (Value.str "inv-1") nil))
      (field "consume" (Value.str "full") (field "capability" (Value.str "window") empty)))

abbrev entitled : Decided
entitled = record good {
  gate_results = record (pass_result "requireMatch") { evidence = some plan } ∷ [];
}

-- the first reservation is given, and no other
abbrev room : ℕ → ReserveOutcome
room zero = ReserveOutcome.reserved
room (suc w) = ReserveOutcome.already_reserved

abbrev registry : Adapter ℕ
registry = record {
  reserve = λ ref intent w. (ok (room w), w + 1);
  release = λ ref intent w. (ok ReleaseOutcome.released, w + 1);
  consume = λ ref intent w. (raised, w);
}

abbrev registered : Deps ℕ
registered = record deps { obligations = some (λ name. some registry) }

abbrev claim : ObligationClaim
claim = record {
  registry = "invoices";
  ref = "inv-1";
  consume = "full";
  capability = Capability.window;
  intent_id = "itn_1";
}

abbrev both : List Decided
both = entitled ∷ entitled ∷ []

takes : taken registered payer session both 0 ≡ claim ∷ []
unfolding taken reserve_op claim_evidence plan_of consumable get truthy reserve_claim first_ref
    adapter_at capability_of py_str ◌>>=◌
takes = refl

fails :
    (pre_pass registered payer session both 0 [] 0).value
    ≡ some (reserve_failed 1 "no-match" (claim ∷ []))
unfolding pre_pass with_op reserve_op claim_evidence plan_of consumable get truthy reserve_claim
    first_ref adapter_at capability_of py_str ◌>>=◌
fails = refl

refused_reservation-releases_example :
    let run =
      commit_batch registered payer session EnforcementMode.enforced (none ∷ none ∷ []) both 0 in
    (b : BatchResult) × (back_out : List Event) × (run.value ≡ some b)
    × IsRefusal registered payer session 1 Decision.deny 2 b
    × (run.events ≡ (pre_pass registered payer session both 0 [] 0).events ++ back_out)
    × (all is_back_out back_out ≡ true)
    × (any (releases claim) back_out ≡ true)
refused_reservation-releases_example =
    refused_reservation-releases registered payer session both (none ∷ none ∷ []) 1 "no-match"
      (claim ∷ []) [] [] claim registry 0 (unfold position in refl) fails takes
      (unfold adapter_at in refl)
