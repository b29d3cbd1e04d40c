-- ===== src/Gates/Match/Decide/Clauses.antt =====
-- How requireMatch reads the entries of `match` and `provenance` as clauses.
use stonefold.Prelude.{
  ◌≡◌, refl, true, Option, none, some, List, [], ◌∷◌, Bool-cases, inl, inr, arith, ◌⊎◌, Bool, true,
  false, sym, ◌++◌,
}
use mathlib.Core.Path.{subst}
use stonefold.Gates.Guards.{listed}
use stonefold.Values.{truthy, Items, nil, cons, to_list, Value}
use stonefold.Condition.Evaluate.{value}
use stonefold.Condition.Evaluate.Extends.{same_value, bind_value}
use stonefold.Gates.{GatePy}
use stonefold.Gates.Match.{Clause, parse_clause, parse_clauses}
use stonefold.Gates.Match.Decide.{match_list, provenance_list, all_clauses}

-- Each entry is read as one clause, in order; the flag marks those of `provenance`.
abbrev pub AreRead : GatePy → Bool → List Value → List Clause → Type 0
AreRead py provenance [] [] = Unit
AreRead py provenance (v ∷ vs) (c ∷ cs) =
    (parse_clause py provenance v ≡ value c) × AreRead py provenance vs cs
AreRead py provenance [] (c ∷ cs) = ⊥
AreRead py provenance (v ∷ vs) [] = ⊥

-- The entries of `provenance`: none where it is not set or is falsy.
abbrev pub AreSources : Option Value → List Value → Type 0
AreSources none vs = vs ≡ []
AreSources (some v) vs =
    ((truthy v ≡ false) × (vs ≡ [])) ⊎ ((truthy v ≡ true) × (listed v ≡ value vs))

-- The clauses of a configuration, apart.
pub record Clauses (py : GatePy) (raw : List Value) (o : Option Value) (cs : List Clause)
    : Type 0 where
  pub sources : List Value
  pub matched : List Clause
  pub sourced : List Clause
  pub stated : AreSources o sources
  pub read_match : AreRead py false raw matched
  pub read_sources : AreRead py true sources sourced
  pub together : matched ++ sourced ≡ cs

module _ (py : GatePy) where
  parse_clauses-AreRead :
      (provenance : Bool) (vs : List Value) (cs : List Clause)
      → parse_clauses py provenance vs ≡ value cs
      → AreRead py provenance vs cs
  unfolding parse_clauses
  parse_clauses-AreRead provenance [] cs h = subst (AreRead py provenance []) (same_value h) tt
  parse_clauses-AreRead provenance (v ∷ vs) cs h =
      let (c, e, rest) = bind_value (parse_clause py provenance v) _ h in
      let (ds, f, same) = bind_value (parse_clauses py provenance vs) _ rest in
      subst (AreRead py provenance (v ∷ vs)) (same_value same)
        (e, parse_clauses-AreRead provenance vs ds f)

  pub match_list-entries :
      (o : Option Value) (raw : List Value)
      → match_list o ≡ some raw
      → (vs : Items) × (o ≡ some (Value.list vs)) × (to_list vs ≡ raw)
  unfolding match_list
  match_list-entries none raw h = cc
  match_list-entries (some (Value.list (cons v vs))) raw h = (cons v vs, refl, ground (arith, h))
  match_list-entries (some (Value.list nil)) raw h = cc
  match_list-entries (some Value.null) raw h = cc
  match_list-entries (some (Value.bool b)) raw h = cc
  match_list-entries (some (Value.int i)) raw h = cc
  match_list-entries (some (Value.float i)) raw h = cc
  match_list-entries (some (Value.str s)) raw h = cc
  match_list-entries (some (Value.instant t)) raw h = cc
  match_list-entries (some (Value.dict d)) raw h = cc

  provenance_list-AreSources :
      (o : Option Value) (vs : List Value) → provenance_list o ≡ value vs → AreSources o vs
  unfolding provenance_list
  provenance_list-AreSources none vs h = sym (same_value h)
  provenance_list-AreSources (some v) vs h = elim (Bool-cases (truthy v)) [
    | inl e ↦ inr (e, rw (provenance_list, e) at h)
    | inr e ↦ inl (e, sym (same_value (rw (provenance_list, e) at h)))
  ]

  pub all_clauses-Clauses :
      (raw : List Value) (o : Option Value) (cs : List Clause)
      → all_clauses py raw o ≡ value cs
      → Clauses py raw o cs
  unfolding all_clauses
  all_clauses-Clauses raw o cs h =
      let (ms, read, h1) = bind_value (parse_clauses py false raw) _ h in
      let (vs, found, h2) = bind_value (provenance_list o) _ h1 in
      let (ps, read', h3) = bind_value (parse_clauses py true vs) _ h2 in
      record {
        sources = vs;
        matched = ms;
        sourced = ps;
        stated = provenance_list-AreSources o vs found;
        read_match = parse_clauses-AreRead false raw ms read;
        read_sources = parse_clauses-AreRead true vs ps read';
        together = same_value h3;
      }
