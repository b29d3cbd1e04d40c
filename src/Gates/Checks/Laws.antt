-- ===== src/Gates/Checks/Laws.antt =====
-- What a hold of named checks rests on.
use stonefold.Prelude.{
  ◌≡◌, refl, String, true, false, Option, none, some, List, [], ◌∷◌, str_eq, Bool-cases, inl, inr,
}
use stonefold.Values.{Value}
use stonefold.Models.Enums.{Outcome}
use stonefold.Models.Records.{GateResult}
use stonefold.Failure.{Call, ok, raised, is_closed}
use stonefold.Condition.Evaluate.{plain}
use stonefold.Gates.{GatePy, CheckResult, GateContext}
use stonefold.Gates.Checks.{
  check_hold_capable, run_named_check, Turn, ends, goes_on, turn, turn_by, check_failed, check_held,
  first_of, after_checks, after_turn, run_checks,
}

module _ {W : Type 0} (py : GatePy) (ctx : GateContext W) where
  -- The check `name` answered with a hold that has a reason code, and is declared to hold.
  pub record Holds (name : String) (c : CheckResult) : Type 0 where
    pub before : W
    pub after : W
    pub answered : run_named_check py ctx name before ≡ (ok c, after)
    pub is_hold : c.outcome ≡ Outcome.hold
    pub coded : str_eq c.code "" ≡ false
    pub declared : check_hold_capable ctx.registry name ≡ true

  -- the hold that the loop remembers
  Remembered : Option (String × CheckResult) → Type 0
  Remembered none = Unit
  Remembered (some (name, c)) = Holds name c

  Keeps : Turn → Type 0
  Keeps (ends r) = r.outcome ≡ Outcome.fail
  Keeps (goes_on h) = Remembered h

  module _ (gate name : String) (first : Option (String × CheckResult)) (w w' : W)
      (m : Remembered first) where
    module _ (c : CheckResult) (a : run_named_check py ctx name w ≡ (ok c, w')) where
      first_of-Remembered :
          (f : Option (String × CheckResult))
          → Remembered f
          → Holds name c
          → Remembered (first_of py ctx f (name, c))
      unfolding first_of Remembered
      first_of-Remembered none n h = h
      first_of-Remembered (some g) n h = n

      check_held-Keeps : c.outcome ≡ Outcome.hold → Keeps (check_held py ctx gate name c first)
      unfolding check_held Keeps
      check_held-Keeps o = elim (Bool-cases (str_eq c.code "")) [
        | inl e ↦ rw (check_held, e) refl
        | inr e ↦ elim (Bool-cases (check_hold_capable ctx.registry name)) [
          | inl d ↦
              let h : Holds name c = record {
                before = w;
                after = w';
                answered = a;
                is_hold = o;
                coded = e;
                declared = d;
              } in
              rw (check_held, e, d) (first_of-Remembered first m h)
          | inr d ↦ rw (check_held, e, d) refl
        ]
      ]

      turn_by-Keeps : (o : Outcome) → c.outcome ≡ o → Keeps (turn_by py ctx gate name c first o)
      unfolding turn_by check_failed Keeps
      turn_by-Keeps Outcome.fail e = refl
      turn_by-Keeps Outcome.hold e = check_held-Keeps e
      turn_by-Keeps Outcome.pass e = m

    turn-Keeps :
        (answer : Call CheckResult)
        → run_named_check py ctx name w ≡ (answer, w')
        → Keeps (turn py ctx gate name first answer)
    unfolding turn Keeps
    turn-Keeps raised a = elim (Bool-cases (is_closed ctx.request.failure_mode)) [
      | inl e ↦ rw (turn, e) refl
      | inr e ↦ rw (turn, e) m
    ]
    turn-Keeps (ok c) a = turn_by-Keeps c a c.outcome refl

  -- a result that holds, as the loop returns it
  HoldsAs : GateResult → Type 0
  HoldsAs r = (c : CheckResult) × Holds r.source c × (r.code ≡ c.code)

  after_checks-HoldsAs :
      (gate : String) (first : Option (String × CheckResult))
      → Remembered first
      → (after_checks py ctx gate first).outcome ≡ Outcome.hold
      → HoldsAs (after_checks py ctx gate first)
  unfolding after_checks Remembered HoldsAs
  after_checks-HoldsAs gate none m h = absurd cc
  after_checks-HoldsAs gate (some (name, c)) m h = (c, m, refl)

  after_turn-HoldsAs :
      (t : Turn) (w : W) (k : Option (String × CheckResult) → W → GateResult × W)
      → Keeps t
      → ((first : Option (String × CheckResult)) (v : W)
          → Remembered first
          → (k first v).0.outcome ≡ Outcome.hold
          → HoldsAs (k first v).0)
      → (after_turn py ctx t w k).0.outcome ≡ Outcome.hold
      → HoldsAs (after_turn py ctx t w k).0
  unfolding after_turn Keeps
  after_turn-HoldsAs (ends r) w k m rest h = absurd cc
  after_turn-HoldsAs (goes_on first) w k m rest h = rest first w m h

  run_checks-HoldsAs :
      (gate : String) (vs : List Value) (first : Option (String × CheckResult)) (w : W)
      → Remembered first
      → (run_checks py ctx gate vs first w).0.outcome ≡ Outcome.hold
      → HoldsAs (run_checks py ctx gate vs first w).0
  unfolding run_checks
  run_checks-HoldsAs gate [] first w m h = after_checks-HoldsAs gate first m h
  run_checks-HoldsAs gate (v ∷ vs) first w m h =
      let name = py.ops.text_of (plain v) in
      let seen = run_named_check py ctx name w in
      after_turn-HoldsAs _ seen.1 (run_checks py ctx gate vs)
        (turn-Keeps gate name first w seen.1 m seen.0 refl) (λ f u. run_checks-HoldsAs gate vs f u)
        h

  -- When the checks of a gate hold, the check that the result names was run and answered with a hold
  -- and with the result's reason code, that code is not empty, and the registry declares that the
  -- check may hold: a check that crashes, that gives no code or that is not declared never holds.
  pub run_checks-Holds_declared :
      (gate : String) (names : List Value) (w : W)
      → (run_checks py ctx gate names none w).0.outcome ≡ Outcome.hold
      → (c : CheckResult) × Holds (run_checks py ctx gate names none w).0.source c
        × ((run_checks py ctx gate names none w).0.code ≡ c.code)
  unfolding Remembered HoldsAs
  run_checks-Holds_declared gate names w h = run_checks-HoldsAs gate names none w tt h
