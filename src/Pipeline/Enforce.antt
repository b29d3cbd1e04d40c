-- ===== src/Pipeline/Enforce.antt =====
-- `enforce` for a call that is decided as one unit, and `_stamp_feedback`.
pub mod Laws
pub mod Killed
use stonefold.Prelude.{Option, none, some}
use stonefold.Models.Enums.{EnforcementMode}
use stonefold.Models.Records.{RawCall, Actor, Session, RequestEnv, EvalResult}
use stonefold.Pipeline.{Act, ◌>>=◌, return, Deps, Decided, Sink, AdvisoryAudit, fresh_audit}
use stonefold.Pipeline.Advised.{as_advised}
use stonefold.Pipeline.Decide.{decide}
use stonefold.Pipeline.Commit.Steps.{commit}

-- `_stamp_feedback`: the audit was written before it
unfoldable pub stamp_feedback : Decided → EvalResult → EvalResult
stamp_feedback k r = record r { feedback = k.feedback }

module _ {W : Type 0} (d : Deps W) (actor : Actor) (session : Session)
    (env : Option RequestEnv) where
  -- `_stamp_feedback(_commit(...), decided)`
  unfoldable pub commit_stamped : Sink → Decided → Act W EvalResult
  commit_stamped sink k = commit d sink actor session env k >>= (λ r. return (stamp_feedback k r))

  -- the verdict and the sink of a deployment's mode
  unfoldable pub in_mode : EnforcementMode → Decided → Decided × Sink
  in_mode EnforcementMode.enforced k = (k, none)
  in_mode EnforcementMode.advisory k =
      let (k', advice, coverage) = as_advised d k in
      (k', some (record fresh_audit { advice = advice; coverage = coverage }))

  unfoldable pub commit_in_mode : Decided → Act W EvalResult
  commit_in_mode k = let (k', sink) = in_mode d.enforcement k in commit_stamped sink k'

  unfoldable pub enforce_whole : RawCall → Act W EvalResult
  enforce_whole call = decide d actor session call env >>= commit_in_mode
