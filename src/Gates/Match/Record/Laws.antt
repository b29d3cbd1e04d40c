-- ===== src/Gates/Match/Record/Laws.antt =====
-- What it means that no clause refuses the matched record.
use stonefold.Prelude.{
  ◌≡◌, refl, ap, sym, ◌∙◌, ℕ, Bool, true, false, Option, none, some, List, [], ◌∷◌, All, Bool-cases,
  if◌then◌else◌, inl, inr,
}
use stonefold.Values.{Value, Fields}
use stonefold.Models.Enums.{Outcome}
use stonefold.Models.Records.{GateResult}
use stonefold.Condition.Evaluate.{Eval, value, raise, missing, runtime, foreign, EvalContext}
use stonefold.Gates.{GatePy, Obligation}
use stonefold.Condition.Evaluate.Extends.{bind_value, same_value}
use stonefold.Gates.Guards.{is_null}
use stonefold.Gates.Match.{StringClause, ToleranceClause, Clause, string, tolerance}
use stonefold.Gates.Match.Record.{
  lookup_field, refused, unread, outside, limit_of, tolerance_verdict, clause_caught, with_record,
  check_tolerance, string_verdict, check_clause, check_clauses, or_rest,
}

-- A clause that does not hold gives a FAIL.
Fails : Option GateResult → Type 0
Fails none = Unit
Fails (some r) = r.outcome ≡ Outcome.fail

FailsAs : Eval (Option GateResult) → Type 0
FailsAs (value v) = Fails v
FailsAs (raise e) = Unit

both_fail :
    (b : Bool) (r s : GateResult)
    → r.outcome ≡ Outcome.fail
    → s.outcome ≡ Outcome.fail
    → (if b then r else s).outcome ≡ Outcome.fail
both_fail true r s p q = p
both_fail false r s p q = q

clause_caught-FailsAs :
    {A : Type 0} (e : Eval A) (failure : GateResult) (k : A → Option GateResult)
    → failure.outcome ≡ Outcome.fail
    → ((a : A) → Fails (k a))
    → FailsAs (clause_caught e failure k)
unfolding clause_caught FailsAs Fails
clause_caught-FailsAs (value a) failure k f g = g a
clause_caught-FailsAs (raise missing) failure k f g = f
clause_caught-FailsAs (raise runtime) failure k f g = f
clause_caught-FailsAs (raise foreign) failure k f g = tt

or_rest_pass :
    (v : Option GateResult) (rest : Eval GateResult) (r : GateResult)
    → Fails v
    → or_rest v rest ≡ value r
    → r.outcome ≡ Outcome.pass
    → (v ≡ none) × (rest ≡ value r)
unfolding or_rest Fails
or_rest_pass none rest r f h p = (refl, h)
or_rest_pass (some s) rest r f h p =
    let e = ap (λ r. r.outcome) (same_value h) in absurd (cc (f, e, p))

module _ (py : GatePy) (ctx : EvalContext) (ob : Obligation) (evidence : Fields) where
  tolerance_verdict-Fails :
      (c : ToleranceClause) (xy : ℕ × ℕ) → Fails (tolerance_verdict py c evidence xy)
  unfolding tolerance_verdict outside refused Fails
  tolerance_verdict-Fails c (x, y) =
      elim (Bool-cases (py.ops.float_lt (limit_of py c x) (py.distance x y))) [
        | inl e ↦ rw (tolerance_verdict, e) (both_fail c.provenance _ _ refl refl)
        | inr e ↦ rw (tolerance_verdict, e) tt
      ]

  string_verdict-Fails : (c : StringClause) (b : Bool) → Fails (string_verdict c evidence b)
  unfolding string_verdict refused Fails
  string_verdict-Fails c true = tt
  string_verdict-Fails c false = both_fail c.provenance _ _ refl refl

  with_record-FailsAs :
      (c : ToleranceClause) (v : Value) → FailsAs (with_record py ctx c evidence v)
  unfolding with_record unread FailsAs Fails
  with_record-FailsAs c v = elim (Bool-cases (is_null v)) [
    | inl e ↦ rw (with_record, e) refl
    | inr e ↦ rw (with_record, e) (clause_caught-FailsAs _ _ _ refl (tolerance_verdict-Fails c))
  ]

  found-FailsAs :
      (c : ToleranceClause) (v : Option Value)
      → lookup_field ob.fields c.path ≡ v
      → FailsAs (check_tolerance py ctx c ob evidence)
  unfolding check_tolerance unread FailsAs Fails
  found-FailsAs c none e = rw (check_tolerance, e) refl
  found-FailsAs c (some v) e = rw (check_tolerance, e) (with_record-FailsAs c v)

  check_clause-FailsAs : (c : Clause) → FailsAs (check_clause py ctx ob evidence c)
  unfolding check_clause unread
  check_clause-FailsAs (string c) = clause_caught-FailsAs _ _ _ refl (string_verdict-Fails c)
  check_clause-FailsAs (tolerance c) = found-FailsAs c _ refl

  pub check_clauses_pass :
      (cs : List Clause) (r : GateResult)
      → check_clauses py ctx ob evidence cs ≡ value r
      → r.outcome ≡ Outcome.pass
      → All (λ c. check_clause py ctx ob evidence c ≡ value none) cs × (r.evidence ≡ some evidence)
  unfolding check_clauses FailsAs
  check_clauses_pass [] r h p = (tt, sym (ap (λ r. r.evidence) (same_value h)))
  check_clauses_pass (c ∷ cs) r h p =
      let (v, found, rest) = bind_value (check_clause py ctx ob evidence c) _ h in
      let (held, more) = or_rest_pass v _ r (rw found at (check_clause-FailsAs c)) rest p in
      let (others, e) = check_clauses_pass cs r more p in ((found ∙ ap value held, others), e)
