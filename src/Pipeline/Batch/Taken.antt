-- ===== src/Pipeline/Batch/Taken.antt =====
-- The reservations that a batch's pre-pass takes, and what becomes of them when one is refused.
use stonefold.Prelude.{
  ◌≡◌, refl, ap, ◌∙◌, sym, ℕ, suc, String, true, Option, none, some, List, [], ◌∷◌, ◌++◌, any, all,
  length,
}
use stonefold.Models.Enums.{Decision, EnforcementMode}
use stonefold.Models.Records.{Actor, Session, RequestEnv, BatchResult, ObligationClaim}
use stonefold.Obligation.{claim_evidence}
use stonefold.Pipeline.{Act, Event, Deps, Decided, Adapter}
use stonefold.Pipeline.Claims.{Reservation, claimed, refusal, adapter_at}
use stonefold.Pipeline.Audited.{bind_returned, resume-returned}
use stonefold.Pipeline.Batch.{
  PrePass, all_reserved, reserve_failed, with_op, refused, position, reserve_op, pass_on, pre_pass,
  after_pass, refuse_reserved, commit_enforced, commit_batch,
}
use stonefold.Pipeline.Batch.Laws.{IsRefusal}
use stonefold.Pipeline.Batch.BackOut.{is_back_out, releases, refuse_reserved-releases}

-- a claim that a reservation gave, before those of the operations behind it; none from its refusal on
abbrev pub took : Option (Option Reservation) → List ObligationClaim → List ObligationClaim
took none later = []
took (some none) later = later
took (some (some (refusal rule))) later = []
took (some (some (claimed c))) later = c ∷ later

append_nil : (cs : List ObligationClaim) → cs ≡ cs ++ []
append_nil [] = refl
append_nil (c ∷ cs) = ap (λ x. c ∷ x) (append_nil cs)

append_one :
    (cs : List ObligationClaim) (c : ObligationClaim) (ds : List ObligationClaim)
    → (cs ++ c ∷ []) ++ ds ≡ cs ++ c ∷ ds
append_one [] c ds = refl
append_one (b ∷ cs) c ds = ap (λ x. b ∷ x) (append_one cs c ds)

failed_with :
    (k : Decided) (p : PrePass) (i : ℕ) (rule : String) (held : List ObligationClaim)
    → with_op k p ≡ reserve_failed i rule held
    → p ≡ reserve_failed i rule held
unfolding with_op
failed_with k (all_reserved ks) i rule held h = absurd cc
failed_with k (reserve_failed j r cs) i rule held h = h

failed_held :
    {i j : ℕ} {rule rule' : String} {held held' : List ObligationClaim}
    → some (reserve_failed i rule held) ≡ some (reserve_failed j rule' held')
    → held ≡ held'
failed_held h = cc

module _ {W : Type 0} (d : Deps W) (actor : Actor) (session : Session) where
  -- The claims that the reservations of the operations give in turn, up to the first that is refused.
  unfoldable pub taken : List Decided → W → List ObligationClaim
  taken [] w = []
  taken (k ∷ ks) w =
      let run = reserve_op d actor session (claim_evidence k.gate_results) w in
      took run.value (taken ks run.world)

  module _ (i : ℕ) (rule : String) (held' : List ObligationClaim) where
    pass_on-took :
        (k : Decided) (j : ℕ) (held : List ObligationClaim)
        (go : List ObligationClaim → Act W PrePass) (later : List ObligationClaim)
        (found : Option Reservation) (w : W)
        → ((cs : List ObligationClaim)
            → (go cs w).value ≡ some (reserve_failed i rule held')
            → held' ≡ cs ++ later)
        → (pass_on d actor session k j held go found w).value ≡ some (reserve_failed i rule held')
        → held' ≡ held ++ took (some found) later
    unfolding pass_on
    pass_on-took k j held go later none w ih h =
        let (p, e, same) = bind_returned (go held) _ w _ h in
        ih held (e ∙ ap some (failed_with k p i rule held' (cc)))
    pass_on-took k j held go later (some (refusal r)) w ih h = sym (failed_held h) ∙ append_nil held
    pass_on-took k j held go later (some (claimed c)) w ih h =
        let (p, e, same) = bind_returned (go (held ++ c ∷ [])) _ w _ h in
        ih (held ++ c ∷ [])
          (e ∙ ap some (failed_with (record k { claim = some c }) p i rule held' (cc)))
        ∙ append_one held c later

    -- a pre-pass that is refused a reservation holds the claims taken before it
    pre_pass-taken :
        (ks : List Decided) (j : ℕ) (held : List ObligationClaim) (w : W)
        → (pre_pass d actor session ks j held w).value ≡ some (reserve_failed i rule held')
        → held' ≡ held ++ taken ks w
    unfolding pre_pass taken
    pre_pass-taken [] j held w h = absurd cc
    pre_pass-taken (k ∷ ks) j held w h =
        let run = reserve_op d actor session (claim_evidence k.gate_results) w in
        let (found, e, more) =
          bind_returned (reserve_op d actor session (claim_evidence k.gate_results)) _ w _ h in
        pass_on-took k j held (pre_pass d actor session ks (suc j)) (taken ks run.world) found
          run.world (λ cs. pre_pass-taken ks (suc j) cs run.world) more
        ∙ ap (λ x. held ++ took x (taken ks run.world)) (sym e)

module _ {W : Type 0} (d : Deps W) (actor : Actor) (session : Session) where
  -- In an enforcing deployment, a batch in which no operation is refused by its decision but one is
  -- refused its reservation returns DENY at that operation, with a result for each operation. After
  -- the reservations it only writes records and gives reservations back; and each claim that an
  -- operation before it took is released at its registry, where one is wired.
  pub refused_reservation-releases :
      (ks : List Decided) (envs : List (Option RequestEnv)) (i : ℕ) (rule : String)
      (held before after : List ObligationClaim) (c : ObligationClaim) (adapter : Adapter W) (w : W)
      → position refused ks ≡ none
      → (pre_pass d actor session ks 0 [] w).value ≡ some (reserve_failed i rule held)
      → taken d actor session ks w ≡ before ++ c ∷ after
      → adapter_at d c.registry ≡ some adapter
      → let run = commit_batch d actor session EnforcementMode.enforced envs ks w in
        (b : BatchResult) × (back_out : List Event) × (run.value ≡ some b)
        × IsRefusal d actor session i Decision.deny (length ks) b
        × (run.events ≡ (pre_pass d actor session ks 0 [] w).events ++ back_out)
        × (all is_back_out back_out ≡ true)
        × (any (releases c) back_out ≡ true)
  unfolding commit_batch commit_enforced after_pass
  refused_reservation-releases ks envs i rule held before after c adapter w calm failing listed
        found =
      let w' = (pre_pass d actor session ks 0 [] w).world in
      let mine = pre_pass-taken d actor session i rule held ks 0 [] w failing ∙ listed in
      let (b, returned, denial, quiet, hit) =
        refuse_reserved-releases d actor session ks i rule before after c adapter w' found in
      rw
        (
          calm,
          resume-returned (pre_pass d actor session ks 0 []) (after_pass d actor session ks envs) w
              (reserve_failed i rule held) failing,
          mine,
        )
        (
          b,
          (refuse_reserved d actor session ks i rule (before ++ c ∷ after) w').events,
          returned,
          denial,
          refl,
          quiet,
          hit,
        )
