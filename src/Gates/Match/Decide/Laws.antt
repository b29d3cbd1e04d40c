-- ===== src/Gates/Match/Decide/Laws.antt =====
-- What a pass of requireMatch rests on.
use stonefold.Prelude.{
  ◌≡◌, refl, ap, ◌∙◌, String, true, Option, none, some, List, [], ◌∷◌, All, Bool-cases, inl, inr,
  ◌≢◌, true, false, ◌++◌,
}
use stonefold.Values.{Items, to_list, Value, Fields}
use stonefold.Models.Enums.{Outcome}
use stonefold.Models.Records.{GateResult, Capability}
use stonefold.Failure.{Call, ok, raised, should_fail_closed}
use stonefold.Condition.Evaluate.{Eval, value, raise, missing, runtime, foreign, Thing}
use stonefold.Condition.Evaluate.Extends.{same_value}
use stonefold.Gates.{GatePy, GateContext, Obligation, Answer, failed, cfg_get, is_dict}
use stonefold.Gates.Match.{Clause}
use stonefold.Gates.Match.Record.{plan_of, refused, check_clause}
use stonefold.Gates.Match.Record.Laws.{check_clauses_pass}
use stonefold.Gates.Match.Decide.{
  match_list, all_clauses, registry_unavailable, Selected, selector, stops, escapes, select,
  no_match, ambiguous, decide_on, answered, on_fields, query, with_clauses, with_registry,
  with_consume, require_match, is_text,
}
use stonefold.Gates.Match.Decide.Clauses.{
  AreRead, AreSources, match_list-entries, all_clauses-Clauses,
}

same_pair : {A B : Type 0} {a c : A} {b d : B} → a ≡ c → b ≡ d → ◌≡◌ {A = A × B} (a, b) (c, d)
same_pair e f = rw (e, f) refl

module _ {W : Type 0} (py : GatePy) (ctx : GateContext W) where
  -- The registry was asked once, by the selector of the clauses, and gave one obligation, on which
  -- each clause was decided and none refused.
  pub record MatchedOne (cfg : Value) (w : W) (r : GateResult) (w' : W) : Type 0 where
    pub registry : String
    pub consume : String
    pub capability : Capability
    pub raw : List Value
    pub sources : List Value
    pub matched : List Clause
    pub sourced : List Clause
    pub constraints : List (String × Thing)
    pub adapter : List (String × Thing) → W → Call (List Obligation) × W
    pub obligation : Obligation
    pub entries : Items
    pub configured : cfg_get cfg "match" ≡ some (Value.list entries)
    pub listed : to_list entries ≡ raw
    pub stated : AreSources (cfg_get cfg "provenance") sources
    pub read_match : AreRead py false raw matched
    pub read_sources : AreRead py true sources sourced
    pub selected : select py ctx (matched ++ sourced) ≡ selector constraints
    pub registered : ctx.obligations registry ≡ some adapter
    pub gave_one : adapter constraints w ≡ (ok (obligation ∷ []), w')
    pub plan : r.evidence ≡ some (plan_of registry obligation consume capability)
    pub all_hold :
        All
          (λ c.
            check_clause py ctx.request.eval_ctx obligation
              (plan_of registry obligation consume capability)
              c
            ≡ value none)
          (matched ++ sourced)

  not_passed :
      (s r : GateResult) → s.outcome ≢ Outcome.pass → r.outcome ≡ Outcome.pass → value s ≢ value r
  not_passed s r n p h = n (ap (λ r. r.outcome) (same_value h) ∙ p)

  ambiguous-not_pass :
      (cfg : Value) (e : Fields) (fs : List String)
      → (ambiguous py ctx cfg e fs).outcome ≢ Outcome.pass
  unfolding ambiguous refused
  ambiguous-not_pass cfg e fs h = elim (Bool-cases (is_text (cfg_get cfg "onAmbiguous") "deny")) [
    | inl d ↦ absurd (cc (rw (ambiguous, d) at h))
    | inr d ↦ absurd (cc (rw (ambiguous, d) at h))
  ]

  no_match-not_pass :
      (cfg : Value) (e : Fields) (fs : List String)
      → (no_match py ctx cfg e fs).outcome ≢ Outcome.pass
  unfolding no_match refused
  no_match-not_pass cfg e fs h = elim (Bool-cases (is_text (cfg_get cfg "onNoMatch") "hold")) [
    | inl d ↦ absurd (cc (rw (no_match, d) at h))
    | inr d ↦ absurd (cc (rw (no_match, d) at h))
  ]

  unavailable-not_pass :
      should_fail_closed (some ctx.request.resolved) ctx.request.failure_mode ≡ true
      → (registry_unavailable py ctx).outcome ≢ Outcome.pass
  unfolding registry_unavailable
  unavailable-not_pass closed h = absurd (cc (rw (registry_unavailable, closed) at h))

  module _ (cfg : Value) (r : GateResult) (p : r.outcome ≡ Outcome.pass)
      (available : registry_unavailable py ctx ≢ r) where
    failed_never :
        {A : Type 0} {gate reason : String} {fs : List String} {w w' : W}
        → ◌≡◌ {A = Answer W} (value (record (failed gate reason) { fields = fs }), w) (value r, w')
        → A
    failed_never h = absurd (not_passed _ r (λ e. cc) p (ap (λ q. q.0) h))

    module _ (reg consume : String) (capability : Capability) where
      answered_pass :
          (cs : List Clause) (answer : Call (List Obligation))
          → answered py ctx cfg reg consume capability cs answer ≡ value r
          → (ob : Obligation) × (answer ≡ ok (ob ∷ []))
            × All
                (λ c.
                  check_clause py ctx.request.eval_ctx ob (plan_of reg ob consume capability) c
                  ≡ value none)
                cs
            × (r.evidence ≡ some (plan_of reg ob consume capability))
      unfolding answered decide_on
      answered_pass cs raised h = absurd (available (same_value h))
      answered_pass cs (ok []) h = absurd (not_passed _ r (no_match-not_pass cfg _ _) p h)
      answered_pass cs (ok (a ∷ b ∷ os)) h =
          absurd (not_passed _ r (ambiguous-not_pass cfg _ _) p h)
      answered_pass cs (ok (ob ∷ [])) h =
          let (hold, e) = check_clauses_pass py ctx.request.eval_ctx ob _ cs r h p in
          (ob, refl, hold, e)

      module _ (raw : List Value) (cs : List Clause) (w w' : W)
          (listed : match_list (cfg_get cfg "match") ≡ some raw)
          (parsed : all_clauses py raw (cfg_get cfg "provenance") ≡ value cs) where
        asked_pass :
            (sel : List (String × Thing))
            → select py ctx cs ≡ selector sel
            → (adapter : Option (List (String × Thing) → W → Call (List Obligation) × W))
            → ctx.obligations reg ≡ adapter
            → query py ctx cfg reg consume capability cs (selector sel) w ≡ (value r, w')
            → MatchedOne cfg w r w'
        unfolding query
        asked_pass sel s none g h =
            absurd (available (same_value (ap (λ q. q.0) (rw (query, g) at h))))
        asked_pass sel s (some adapter) g h =
            let h' = rw (query, g) at h in
            let parts = all_clauses-Clauses py raw (cfg_get cfg "provenance") cs parsed in
            let found = match_list-entries py (cfg_get cfg "match") raw listed in
            let (ob, one, hold, e) = answered_pass cs (adapter sel w).0 (ap (λ q. q.0) h') in
            record {
              registry = reg;
              consume = consume;
              capability = capability;
              raw = raw;
              sources = parts.sources;
              matched = parts.matched;
              sourced = parts.sourced;
              constraints = sel;
              adapter = adapter;
              obligation = ob;
              entries = found.0;
              configured = found.1;
              listed = found.2;
              stated = parts.stated;
              read_match = parts.read_match;
              read_sources = parts.read_sources;
              selected = rw parts.together s;
              registered = g;
              gave_one = same_pair one (ap (λ q. q.1) h');
              plan = e;
              all_hold = rw parts.together hold;
            }

        query_pass :
            (s : Selected)
            → select py ctx cs ≡ s
            → query py ctx cfg reg consume capability cs s w ≡ (value r, w')
            → MatchedOne cfg w r w'
        unfolding query on_fields
        query_pass (selector sel) e h = asked_pass sel e _ refl h
        query_pass (stops fs) e h = absurd cc
        query_pass escapes e h = absurd cc

      clauses_pass :
          (raw : List Value) (cs : Eval (List Clause)) (w w' : W)
          → match_list (cfg_get cfg "match") ≡ some raw
          → all_clauses py raw (cfg_get cfg "provenance") ≡ cs
          → with_clauses py ctx cfg reg consume capability cs w ≡ (value r, w')
          → MatchedOne cfg w r w'
      unfolding with_clauses
      clauses_pass raw (value cs) w w' l e h = query_pass raw cs w w' l e _ refl h
      clauses_pass raw (raise foreign) w w' l e h = absurd cc
      clauses_pass raw (raise missing) w w' l e h = failed_never h
      clauses_pass raw (raise runtime) w w' l e h = failed_never h

    registry_pass :
        (reg consume : String) (decl : Option Capability) (raw : Option (List Value)) (w w' : W)
        → match_list (cfg_get cfg "match") ≡ raw
        → with_registry py ctx cfg reg consume decl raw w ≡ (value r, w')
        → MatchedOne cfg w r w'
    unfolding with_registry
    registry_pass reg consume none raw w w' l h = failed_never h
    registry_pass reg consume (some capability) none w w' l h = failed_never h
    registry_pass reg consume (some capability) (some raw) w w' l h =
        clauses_pass reg consume capability raw _ w w' l refl h

    consume_pass :
        (consume : Option String) (w w' : W)
        → with_consume py ctx cfg consume w ≡ (value r, w')
        → MatchedOne cfg w r w'
    unfolding with_consume
    consume_pass none w w' h = failed_never h
    consume_pass (some consume) w w' h =
        elim (Bool-cases (is_text (cfg_get cfg "onAmbiguous") "allow")) [
          | inl e ↦ failed_never (rw (with_consume, e) at h)
          | inr e ↦ registry_pass _ consume _ _ w w' refl (rw (with_consume, e) at h)
        ]

    pub match_pass : (w w' : W) → require_match py ctx cfg w ≡ (value r, w') → MatchedOne cfg w r w'
    unfolding require_match
    match_pass w w' h = elim (Bool-cases (is_dict cfg)) [
      | inl e ↦ consume_pass _ w w' (rw (require_match, e) at h)
      | inr e ↦ failed_never (rw (require_match, e) at h)
    ]

  -- Where an outage fails closed, requireMatch passes only if each entry of `match` and `provenance`
  -- was read as a clause, the obligation registry was asked by the selector that these clauses give
  -- and answered with exactly one obligation, none of the clauses refuses that record, and the result carries the plan to consume it: no
  -- candidate, several candidates, an outage and a clause that cannot be read never pass.
  pub require_match-matches_one :
      (cfg : Value) (w : W) (r : GateResult) (w' : W)
      → should_fail_closed (some ctx.request.resolved) ctx.request.failure_mode ≡ true
      → require_match py ctx cfg w ≡ (value r, w')
      → r.outcome ≡ Outcome.pass
      → MatchedOne cfg w r w'
  require_match-matches_one cfg w r w' closed h p =
      match_pass cfg r p (λ e. unavailable-not_pass closed (ap (λ r. r.outcome) e ∙ p)) w w' h
