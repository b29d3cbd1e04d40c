-- ===== src/Pipeline/Decide/Halted.antt =====
-- The kill check that precedes everything but resolution.
use stonefold.Prelude.{◌≡◌, refl, Option, some, [], ◌∷◌, ◌+s◌}
use stonefold.Models.Enums.{Decision}
use stonefold.Models.Records.{RawCall, ResolvedAction, Actor, Session, RequestEnv}
use stonefold.Failure.{Call, ok}
use stonefold.Kill.{KillTarget, KillOrder, pre_target}
use stonefold.Pipeline.{kill_read, ◌>>=◌, Deps, Decided, decided_as, agent_name}
use stonefold.Pipeline.Decide.{decide, decide_at, ask_kill, pre_verdict}

-- The verdict of the pre-check.
abbrev pub halted : RawCall → ResolvedAction → KillOrder → Decided
halted call a order = record (decided_as call (some a) Decision.halt ("kill:" +s order.id)) {
  outcome = "halted";
}

module _ {W : Type 0} (d : Deps W) (actor : Actor) (session : Session) (env : Option RequestEnv)
    (call : RawCall) (a : ResolvedAction) (order : KillOrder)
    (matches : KillTarget → W → Call (Option KillOrder) × W) where
  pub decide-halted :
      (w : W)
      → d.resolve call ≡ some a
      → d.kill ≡ some matches
      → (matches (pre_target (agent_name d) session.id) w).0 ≡ ok (some order)
      → decide d actor session call env w ≡ record {
        value = some (halted call a order);
        events = kill_read (pre_target (agent_name d) session.id) ∷ [];
        world = (matches (pre_target (agent_name d) session.id) w).1;
      }
  unfolding decide decide_at ask_kill pre_verdict ◌>>=◌ pre_target agent_name
  decide-halted w known store answer = rw (known, store) (rw answer refl)
