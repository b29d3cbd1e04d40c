-- ===== src/Outbox/Release/Targets.antt =====
-- Which contracts an approval without a gate may credit.
use stonefold.Prelude.{
  String, ◌≡◌, Bool, true, false, none, some, List, [], ◌∷◌, ◌||◌, str_eq, eq_iff, contains, any,
  arith, Bool-cases, inl, inr, sym, ◌∙◌,
}
use stonefold.Models.Records.{ReleaseContract}
use stonefold.Outbox.{PendingAction, is_pending_approval, effective_contracts}
use stonefold.Outbox.Release.{
  released, approval_shaped, gates_of, bare_targets, targeted_gates, names_no_contract, credit,
  credit_all, finish, release_targets, apply_release,
}

abbrev shaped_gate : String → Bool
shaped_gate g = str_eq g "requireApproval" || str_eq g "dualAuthorization"

-- Contract by contract: one that no approval gate made is as it was.
abbrev pub KeepsChecks : List ReleaseContract → List ReleaseContract → Type 0
KeepsChecks [] [] = Unit
KeepsChecks (c ∷ cs) (d ∷ ds) = (approval_shaped c ≡ false → d ≡ c) × KeepsChecks cs ds
KeepsChecks [] (d ∷ ds) = ⊥
KeepsChecks (c ∷ cs) [] = ⊥

gates_of-shaped :
    (cs : List ReleaseContract) (g : String)
    → contains (gates_of cs) g ≡ true
    → shaped_gate g ≡ true
unfolding gates_of
gates_of-shaped [] g h = cc
gates_of-shaped (c ∷ cs) g h = elim (Bool-cases (approval_shaped c)) [
  | inr off ↦ gates_of-shaped cs g (rw off at h)
  | inl on ↦ elim (Bool-cases (str_eq c.gate g)) [
    | inl same ↦ ground (arith, eq_iff c.gate g)
    | inr other ↦ gates_of-shaped cs g (ground arith)
  ]
]

gates_of-cons :
    (cs : List ReleaseContract)
    → any approval_shaped cs ≡ true
    → (g : String) × (gs : List String) × (gates_of cs ≡ g ∷ gs)
unfolding gates_of
gates_of-cons [] h = cc
gates_of-cons (c ∷ cs) h = elim (Bool-cases (approval_shaped c)) [
  | inl on ↦ (c.gate, gates_of cs, rw on)
  | inr off ↦ rw off (gates_of-cons cs (ground arith))
]

module _ (targets : List String) (who actor_id : String)
    (shaped : (g : String) → contains targets g ≡ true → shaped_gate g ≡ true) where
  credit-keeps :
      (c : ReleaseContract) → approval_shaped c ≡ false → (credit targets who actor_id c).0 ≡ c
  unfolding credit
  credit-keeps c h = elim (Bool-cases (contains targets c.gate)) [
    | inl on ↦ absurd (cc (shaped c.gate on))
    | inr off ↦ rw off
  ]

  credit_all-keeps :
      (cs : List ReleaseContract) → KeepsChecks cs (credit_all targets who actor_id cs).0
  unfolding credit_all
  credit_all-keeps [] = tt
  credit_all-keeps (c ∷ cs) = (credit-keeps c, credit_all-keeps cs)

releases-finish :
    (row row' : PendingAction) (who : String) (cs : List ReleaseContract) (credited self : Bool)
    → finish row who (cs, credited, self) ≡ released row'
    → row'.releases ≡ cs
unfolding finish
releases-finish row row' who cs credited self h = ground arith

targets-keeps :
    (row row' : PendingAction) (who : String) (cs : List ReleaseContract) (gs : List String)
    → ((g : String) → contains gs g ≡ true → shaped_gate g ≡ true)
    → release_targets row who cs (some gs) ≡ released row'
    → KeepsChecks cs row'.releases
unfolding release_targets
targets-keeps row row' who cs gs shaped h =
    let pass = credit_all gs who row.actor.id cs in
    rw (releases-finish row row' who pass.0 pass.1 pass.2 h)
      (credit_all-keeps gs who row.actor.id shaped cs)

-- An approval that names no gate, on a row that an approval gate holds (requireApproval or
-- dualAuthorization), leaves every contract of any other gate exactly as it was.
pub bare_release-spares_checks :
    (row row' : PendingAction) (who : String)
    → any approval_shaped (effective_contracts row) ≡ true
    → apply_release row who none ≡ released row'
    → KeepsChecks (effective_contracts row) row'.releases
unfolding apply_release names_no_contract targeted_gates bare_targets
bare_release-spares_checks row row' who shaped h =
    elim (Bool-cases (is_pending_approval row.state)) [
      | inr off ↦ absurd (cc (rw off at h))
      | inl on ↦
          let (g, gs, e) = gates_of-cons (effective_contracts row) shaped in
          let k : apply_release row who none
              ≡ release_targets row who (effective_contracts row) (some (g ∷ gs)) =
            rw on (rw (e, bare_targets)) in
          targets-keeps row row' who (effective_contracts row) (g ∷ gs)
            (λ x hx. gates_of-shaped (effective_contracts row) x (rw e hx)) (sym k ∙ h)
    ]
