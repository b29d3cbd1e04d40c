-- ===== src/Pipeline/Batch.antt =====
-- `enforce_batch` and `_commit_batch_advisory`: every operation is decided before any commits.
pub mod Laws
pub mod BackOut
pub mod Taken
use stonefold.Prelude.{
  ℕ, zero, suc, String, Bool, true, false, not, Option, none, some, List, [], ◌∷◌, ◌++◌, map, any,
  ◌&&◌, if◌then◌else◌, nat_eq, length,
}
use stonefold.Values.{Fields}
use stonefold.Models.Enums.{Decision, EnforcementMode, Coverage, is_refusal, is_halt, is_hold}
use stonefold.Models.Records.{
  RawCall, Actor, Session, RequestEnv, ObligationClaim, EvalResult, BatchResult, Advice,
  BatchAdvice,
}
use stonefold.Obligation.{claim_evidence}
use stonefold.Pipeline.{Act, ◌>>=◌, return, raise, Deps, Decided, Sink, AdvisoryAudit, fresh_audit}
use stonefold.Pipeline.Claims.{Reservation, claimed, refusal, reserve_claim, release_claim}
use stonefold.Pipeline.Advised.{as_advised, kill_caused}
use stonefold.Pipeline.Decide.{decide}
use stonefold.Pipeline.Commit.{ending_of, terminal}
use stonefold.Pipeline.Enforce.{stamp_feedback, commit_stamped}

-- [f(x) for x in xs], in order
unfoldable pub each : {W A B : Type 0} → (A → Act W B) → List A → Act W (List B)
each f [] = return []
each f (x ∷ xs) = f x >>= (λ b. each f xs >>= (λ bs. return (b ∷ bs)))

-- next(((i, x) for i, x in enumerate(xs) if p(x)), None)
unfoldable pub position : {A : Type 0} → (A → Bool) → List A → Option (ℕ × A)
position p [] = none
position p (x ∷ xs) =
    let rest = position p xs in
    if p x then some (0, x) else elim rest [ none ↦ none | some (i, y) ↦ some (suc i, y) ]

abbrev pub refused : Decided → Bool
refused k = is_refusal k.decision

abbrev pub result_refused : EvalResult → Bool
result_refused r = is_refusal r.decision

-- the batch's answer once every operation was committed
unfoldable pub summary : List EvalResult → BatchResult
summary results = elim (position result_refused results) [
  | some (i, r) ↦ record { decision = r.decision; failing_index = some i; results = results }
  | none ↦ record {
    decision =
        if any (λ (r : EvalResult). is_hold r.decision) results
        then Decision.hold
        else Decision.allow;
    failing_index = none;
    results = results;
  }
]

-- What the reservation pre-pass leaves: the operations with their claims, or the operation that was
-- refused a reservation, with the claims that the others hold.
pub data PrePass : Type 0 where
  all_reserved : List Decided → PrePass
  reserve_failed : ℕ → String → List ObligationClaim → PrePass

-- An operation of the batch with its sink and its environment.
pub record Op : Type 0 where
  pub decided : Decided
  pub sink : Sink
  pub env : Option RequestEnv

unfoldable pub with_op : Decided → PrePass → PrePass
with_op k (all_reserved ks) = all_reserved (k ∷ ks)
with_op k (reserve_failed i rule held) = reserve_failed i rule held

-- whether an operation is the one at the index
pub marks : ℕ → List Decided → List (Bool × Decided)
marks i [] = []
marks zero (k ∷ ks) = (true, k) ∷ map (λ j. (false, j)) ks
marks (suc i) (k ∷ ks) = (false, k) ∷ marks i ks

pub ops_of : List Decided → List (Option RequestEnv) → List Op
ops_of (k ∷ ks) (env ∷ envs) = record { decided = k; sink = none; env = env } ∷ ops_of ks envs
ops_of (k ∷ ks) [] = []
ops_of [] envs = []

pub zip : List RawCall → List (Option RequestEnv) → List (RawCall × Option RequestEnv)
zip (c ∷ cs) (env ∷ envs) = (c, env) ∷ zip cs envs
zip (c ∷ cs) [] = []
zip [] envs = []

batch_advice_of : Option (ℕ × Decided) → Option BatchAdvice
batch_advice_of none = none
batch_advice_of (some (i, k)) = some (record { failing_index = i; decision = k.decision })

module _ {W : Type 0} (d : Deps W) (actor : Actor) (session : Session) where
  -- an operation of a refused batch: its own terminal, or `batch-refused`
  unfoldable pub refuse : Sink → Decided → Act W EvalResult
  refuse sink k =
      terminal d sink actor session k.decision k.rule k.call k.resolved
        (record (ending_of k) { outcome = if refused k then k.outcome else "batch-refused" })
      >>= (λ r. return (stamp_feedback k r))

  -- the batch is refused at an index, and nothing of it commits
  unfoldable pub refuse_all : Sink → List Decided → ℕ → Decision → Act W BatchResult
  refuse_all sink ks i decision = each (refuse sink) ks >>= (λ results.
      return (record { decision = decision; failing_index = some i; results = results }))

  refuse_reserve : String → Decided → Act W EvalResult
  refuse_reserve rule k =
      terminal d none actor session Decision.deny rule k.call k.resolved (ending_of k)
      >>= (λ r. return (stamp_feedback k r))

  refuse_one : String → Bool × Decided → Act W EvalResult
  unfolding refuse_reserve
  refuse_one rule (here, k) = if here then refuse_reserve rule k else refuse none k

  -- what one operation's pass finds: no plan, a claim, or a refusal
  unfoldable pub reserve_op : Option Fields → Act W (Option Reservation)
  reserve_op none = return none
  reserve_op (some plan) = reserve_claim d plan >>= (λ r. return (some r))

  -- the loop's body, at the rest of the loop for the claims so far
  pass_on :
      Decided
      → ℕ
      → List ObligationClaim
      → (List ObligationClaim → Act W PrePass)
      → Option Reservation
      → Act W PrePass
  pass_on k i held go none = go held >>= (λ rest. return (with_op k rest))
  pass_on k i held go (some (refusal rule)) = return (reserve_failed i rule held)
  pass_on k i held go (some (claimed c)) =
      go (held ++ c ∷ []) >>= (λ rest. return (with_op (record k { claim = some c }) rest))

  -- the reservation pre-pass, with the index and the claims so far
  unfoldable pub pre_pass : List Decided → ℕ → List ObligationClaim → Act W PrePass
  unfolding pass_on
  pre_pass [] i held = return (all_reserved [])
  pre_pass (k ∷ ks) i held =
      reserve_op (claim_evidence k.gate_results) >>= pass_on k i held (pre_pass ks (suc i))

  -- the batch is refused for one reservation, and every claim that it took is released
  pub refuse_reserved : List Decided → ℕ → String → List ObligationClaim → Act W BatchResult
  unfolding refuse_one
  refuse_reserved ks i rule held = each (λ c. release_claim d (some c)) held >>= (λ _.
      each (refuse_one rule) (marks i ks) >>= (λ results.
        return (record { decision = Decision.deny; failing_index = some i; results = results })))

  unfoldable pub commit_op : Op → Act W EvalResult
  commit_op op = commit_stamped d actor session op.env op.sink op.decided

  unfoldable pub commit_all : List Op → Act W BatchResult
  commit_all ops = each commit_op ops >>= (λ results. return (summary results))

  after_pass : List Decided → List (Option RequestEnv) → PrePass → Act W BatchResult
  unfolding refuse_reserved
  after_pass ks envs (reserve_failed i rule held) = refuse_reserved ks i rule held
  after_pass ks envs (all_reserved ks') = commit_all (ops_of ks' envs)

  unfoldable pub commit_enforced :
      List Decided → List (Option RequestEnv) → Option (ℕ × Decided) → Act W BatchResult
  unfolding after_pass pre_pass
  commit_enforced ks envs (some (i, k)) = refuse_all none ks i k.decision
  commit_enforced ks envs none = pre_pass ks 0 [] >>= after_pass ks envs

  -- no kill: every operation is translated, and its record carries the batch's advice and its own
  unfoldable pub advised_op : Option (ℕ × Decided) → Decided → Option RequestEnv → Op
  unfolding batch_advice_of
  advised_op failing k env =
      let (k', advice, coverage) = as_advised d k in
      record {
        decided = k';
        sink = some (record {
          advice = advice;
          batch_advice = batch_advice_of failing;
          item_advice = none;
          coverage = coverage;
        });
        env = env;
      }

  advised_ops : Option (ℕ × Decided) → List Decided → List (Option RequestEnv) → List Op
  advised_ops failing (k ∷ ks) (env ∷ envs) = advised_op failing k env ∷ advised_ops failing ks envs
  advised_ops failing (k ∷ ks) [] = []
  advised_ops failing [] envs = []

  commit_watched :
      List Decided → List (Option RequestEnv) → Option (ℕ × Decided) → Act W BatchResult
  unfolding advised_ops
  commit_watched ks envs (some (i, k)) = refuse_all (some fresh_audit) ks i k.decision
  commit_watched ks envs none = commit_all (advised_ops (position refused ks) ks envs)

  unfoldable pub commit_batch :
      EnforcementMode → List (Option RequestEnv) → List Decided → Act W BatchResult
  unfolding commit_watched
  commit_batch EnforcementMode.enforced envs ks = commit_enforced ks envs (position refused ks)
  commit_batch EnforcementMode.advisory envs ks =
      commit_watched ks envs
        (position (λ (k : Decided). is_halt k.decision && kill_caused k.rule) ks)

  decide_one : RawCall × Option RequestEnv → Act W Decided
  decide_one (call, env) = decide d actor session call env

  -- the operations, each with its environment
  enforce_ops : List RawCall → List (Option RequestEnv) → Act W BatchResult
  unfolding decide_one
  enforce_ops calls envs = each decide_one (zip calls envs) >>= commit_batch d.enforcement envs

  -- the two guards raise ValueError
  unfoldable pub enforce_batch :
      List RawCall → Option (List (Option RequestEnv)) → Act W BatchResult
  unfolding enforce_ops
  enforce_batch [] envs = raise
  enforce_batch (c ∷ cs) none = enforce_ops (c ∷ cs) (map (λ _. none) (c ∷ cs))
  enforce_batch (c ∷ cs) (some envs) =
      if nat_eq (length envs) (length (c ∷ cs)) then enforce_ops (c ∷ cs) envs else raise
