-- ===== src/Outbox/Release/Laws.antt =====
-- Who can satisfy which release contract.
use stonefold.Prelude.{
  contains-append, String, ◌≡◌, refl, Bool, true, false, not, Option, none, some, List, [], ◌∷◌,
  ◌++◌, ◌&&◌, ◌||◌, str_eq, eq_iff, contains, all, All, length, arith, ◌≤◌, Bool-cases, inl, inr,
  ◌⊎◌, ◌∙◌,
}
use mathlib.Core.Path.{subst}
use stonefold.Models.Records.{ReleaseContract, Actor}
use stonefold.Outbox.{
  PendingState, PendingAction, is_pending_approval, satisfied, effective_contracts, contracts_or,
  legacy_contract,
}
use stonefold.Outbox.Release.{
  Released, released, refused, names_no_contract, credit, credit_all, finish, release_targets,
  apply_release,
}

-- No identity is counted twice.
abbrev pub IsDistinct : List String → Type 0
IsDistinct [] = Unit
IsDistinct (s ∷ ss) = (contains ss s ≡ false) × IsDistinct ss

-- Every credited identity is counted once, and a dual or distinct contract never counts the actor.
pub record IsSound (actor_id : String) (c : ReleaseContract) : Type 0 where
  pub once : IsDistinct c.satisfied_by
  pub not_self :
      (c.dual_auth || c.distinct_from_actor) ≡ true → contains c.satisfied_by actor_id ≡ false

IsDistinct-append :
    (xs : List String) (a : String)
    → contains xs a ≡ false
    → IsDistinct xs
    → IsDistinct (xs ++ a ∷ [])
IsDistinct-append [] a h d = (refl, tt)
IsDistinct-append (x ∷ xs) a h (p, d) = (
  ground (arith, contains-append xs a x, eq_iff a x, eq_iff x a),
  IsDistinct-append xs a (ground arith) d,
)

abbrev add : ReleaseContract → String → ReleaseContract
add c who = record c { satisfied_by = c.satisfied_by ++ who ∷ [] }

-- Why a pass of the loop credits an identity.
record Credits (targets : List String) (who actor_id : String) (c : ReleaseContract) : Type 0 where
  targeted : contains targets c.gate ≡ true
  fresh : contains c.satisfied_by who ≡ false
  not_self : ((c.dual_auth || c.distinct_from_actor) && str_eq who actor_id) ≡ false

module _ (targets : List String) (who actor_id : String) where
  credit-cases :
      (c : ReleaseContract)
      → ((credit targets who actor_id c).0 ≡ c)
        ⊎ (Credits targets who actor_id c × ((credit targets who actor_id c).0 ≡ add c who))
  unfolding credit
  credit-cases c = elim (Bool-cases (contains targets c.gate)) [
    | inr off ↦ inl (rw off)
    | inl on ↦ elim (Bool-cases (contains c.satisfied_by who)) [
      | inl old ↦ inl (ground arith)
      | inr new ↦
          elim (Bool-cases ((c.dual_auth || c.distinct_from_actor) && str_eq who actor_id)) [
            | inl self ↦ inl (ground arith)
            | inr other ↦ elim (Bool-cases (satisfied c)) [
              | inl full ↦ inl (ground arith)
              | inr open_ ↦ inr (
                record { targeted = on; fresh = new; not_self = other },
                rw (on, new, other, open_),
              )
            ]
          ]
    ]
  ]

  add-IsSound :
      (c : ReleaseContract)
      → Credits targets who actor_id c
      → IsSound actor_id c
      → IsSound actor_id (add c who)
  add-IsSound c k h = record {
    once = IsDistinct-append c.satisfied_by who k.fresh h.once;
    not_self =
        λ d. ground (arith, contains-append c.satisfied_by who actor_id, h.not_self d, k.not_self);
  }

  credit-IsSound :
      (c : ReleaseContract)
      → IsSound actor_id c
      → IsSound actor_id (credit targets who actor_id c).0
  credit-IsSound c h = elim (credit-cases c) [
    | inl same ↦ rw same h
    | inr (k, e) ↦ rw e (add-IsSound c k h)
  ]

  credit_all-IsSound :
      (cs : List ReleaseContract)
      → All (IsSound actor_id) cs
      → All (IsSound actor_id) (credit_all targets who actor_id cs).0
  unfolding credit_all
  credit_all-IsSound [] h = tt
  credit_all-IsSound (c ∷ cs) (h, hs) = (credit-IsSound c h, credit_all-IsSound cs hs)

abbrev pub IsFull : ReleaseContract → Type 0
IsFull c = c.quorum ≤ length c.satisfied_by

all-satisfied : (cs : List ReleaseContract) → all satisfied cs ≡ true → All IsFull cs
all-satisfied [] h = tt
all-satisfied (c ∷ cs) h = (ground arith, all-satisfied cs (ground arith))

-- What holds of a row that is held, or that releases have promoted.
pub record IsHonest (row : PendingAction) : Type 0 where
  pub sound : All (IsSound row.actor.id) (effective_contracts row)
  pub quorate : row.state ≡ PendingState.pending → All IsFull (effective_contracts row)

-- A release with its outcome: an error leaves the stored row as it was.
abbrev pub after : PendingAction → Released → PendingAction
after row (released row') = row'
after row (refused e) = row

-- A run of `approve` calls on one row, each an identity and the gate that it names.
unfoldable pub releases_of : PendingAction → List (String × Option String) → PendingAction
releases_of row [] = row
releases_of row ((who, gate) ∷ rest) = releases_of (after row (apply_release row who gate)) rest

finish-IsHonest :
    (row : PendingAction) (who : String) (c : ReleaseContract) (cs : List ReleaseContract)
    (credited refused_self : Bool)
    → All (IsSound row.actor.id) (c ∷ cs)
    → IsHonest row
    → IsHonest (after row (finish row who (c ∷ cs, credited, refused_self)))
unfolding finish effective_contracts
finish-IsHonest row who c cs credited refused_self sound h =
    elim (Bool-cases (not credited && refused_self)) [
      | inl self ↦ rw self h
      | inr more ↦
          rw more (record { sound = sound; quorate = λ p. all-satisfied (c ∷ cs) (ground arith) })
    ]

contracts-cons :
    (row : PendingAction)
    → (c : ReleaseContract) × (cs : List ReleaseContract) × (effective_contracts row ≡ c ∷ cs)
unfolding effective_contracts
contracts-cons row =
    elim row.releases
      as (λ rs.
        (c : ReleaseContract) × (cs : List ReleaseContract) × (contracts_or rs
            (record (legacy_contract row.approval) { satisfied_by = row.approvals })
          ≡ c ∷ cs)) [ [] ↦ (_, _, refl) | r ∷ rs ↦ (r, rs, refl) ]

targets-IsHonest :
    (row : PendingAction) (who : String) (cs : List ReleaseContract)
    (targets : Option (List String))
    → effective_contracts row ≡ cs
    → IsHonest row
    → IsHonest (after row (release_targets row who cs targets))
unfolding release_targets credit_all
targets-IsHonest row who cs none e h = h
targets-IsHonest row who [] (some ts) e h = let (c, ds, k) = contracts-cons row in cc
targets-IsHonest row who (c ∷ cs) (some ts) e h =
    let sound : All (IsSound row.actor.id) (c ∷ cs) = rw e at h.sound in
    let pass = credit_all ts who row.actor.id (c ∷ cs) in
    finish-IsHonest row who _ _ pass.1 pass.2
      (credit_all-IsSound ts who row.actor.id (c ∷ cs) sound) h

apply_release-IsHonest :
    (row : PendingAction) (who : String) (gate : Option String)
    → IsHonest row
    → IsHonest (after row (apply_release row who gate))
unfolding apply_release
apply_release-IsHonest row who gate h = elim (Bool-cases (is_pending_approval row.state)) [
  | inr off ↦ rw off h
  | inl on ↦ elim (Bool-cases (names_no_contract gate (effective_contracts row))) [
    | inl bad ↦ rw (on, bad) h
    | inr good ↦ rw (on, good) (targets-IsHonest row who _ _ refl h)
  ]
]

pub releases_of-IsHonest :
    (row : PendingAction) (calls : List (String × Option String))
    → IsHonest row
    → IsHonest (releases_of row calls)
unfolding releases_of
releases_of-IsHonest row [] h = h
releases_of-IsHonest row ((who, gate) ∷ rest) h =
    releases_of-IsHonest (after row (apply_release row who gate)) rest
      (apply_release-IsHonest row who gate h)

actor-apply_release :
    (row : PendingAction) (who : String) (gate : Option String)
    → (after row (apply_release row who gate)).actor ≡ row.actor
unfolding apply_release finish
actor-apply_release row who gate = ground arith

actor-releases_of :
    (row : PendingAction) (calls : List (String × Option String))
    → (releases_of row calls).actor ≡ row.actor
unfolding releases_of
actor-releases_of row [] = refl
actor-releases_of row ((who, gate) ∷ rest) =
    actor-releases_of (after row (apply_release row who gate)) rest
    ∙ actor-apply_release row who gate

-- After any run of approvals, by anyone and for any gates, of a held row whose contracts are sound
-- to begin with: if the row is promoted, every release contract has its quorum of credited
-- identities, no identity is counted twice in a contract, and a dual or distinct contract has
-- never counted the acting principal.
pub promotion-needs_quorum :
    (row : PendingAction) (calls : List (String × Option String))
    → row.state ≡ PendingState.pending_approval
    → All (IsSound row.actor.id) (effective_contracts row)
    → (releases_of row calls).state ≡ PendingState.pending
    → All IsFull (effective_contracts (releases_of row calls))
      × All (IsSound row.actor.id) (effective_contracts (releases_of row calls))
promotion-needs_quorum row calls held sound promoted =
    let start : IsHonest row = record { sound = sound; quorate = λ p. cc } in
    let h = releases_of-IsHonest row calls start in
    let contracts = effective_contracts (releases_of row calls) in
    (
      h.quorate promoted,
      subst (λ (a : Actor). All (IsSound a.id) contracts) (actor-releases_of row calls) h.sound,
    )
