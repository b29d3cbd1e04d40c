-- ===== src/Lib.antt =====
-- Stonefold is a gateway between an agent and the systems it acts on. One call is decided (resolve,
-- kill pre-check, authorize, scope, gates, kill), then committed (a hold or an effect is staged in
-- the outbox, any other kind runs through its connector), and it ends in one audit record. Releases
-- promote held rows, a worker claims the rows that are due, operators stop it all by kill orders,
-- and obligations keep one line from being spent twice.
--
-- The files, and the code that each is about:
--   Prelude      texts, lists, tests and numbers that all files share
--   Values       the dynamic values that cross the gateway; a float is its 64-bit pattern
--   Models       src/stonefold_core/enums.py, models.py, gating.py
--   Failure      src/stonefold_core/failure.py: guarded calls and the fail-closed rule
--   Reasons      src/stonefold_core/reasons.py: reason codes and retry classes
--   Compiler     src/stonefold_core/compiler.py: allow and deny by kind, authorization,
--                the gate sets of an action
--   Audit        src/stonefold_core/audit.py: the assembly of a record
--   Kill         src/stonefold_core/kill.py, src/stonefold_store/kill_memory.py, kill_cached.py
--   Obligation   src/stonefold_core/obligation.py, src/stonefold_store/obligations.py
--   Outbox       src/stonefold_core/outbox.py, src/stonefold_store/outbox_memory.py
--   Pipeline     src/stonefold_core/pipeline.py: _decide, _commit, enforce with its fan-out of
--                items, enforce_batch and the advisory translation
--   Feedback     src/stonefold_core/feedback.py: what an agent sees of a result
--   Dispatch     src/stonefold_store/dispatch.py: the sweep over held rows, a claimed row up to
--                its settle, the release of claims, a turn of the worker and the drain
--   Counters     src/stonefold_store/counters.py: the in-memory window counters
--   Condition    src/stonefold_core/condition.py: tokenizer, parser, validation and evaluation, with
--                the writing of an expression
--   Gates        src/stonefold_gates/base.py, reads.py, gates.py, engine.py: the gates, the engine
--                that runs them by cost, and the checks of a staged row at its dispatch
--   Examples     runs of the modelled code at concrete inputs
--
-- State is passed explicitly. A store's operation takes the store and returns it changed, with what
-- it answers. The pipeline is a program over one world W, which its injected dependencies share:
-- `Act W A` is a step from a world to a value, the events it caused and the next world. An event is a
-- call of a dependency or a record written, so an order of events is an order of calls. A value
-- `none` is an exception that the code does not catch: an assertion, a missing key, a ValueError.
-- A dependency that the code guards answers with `Call`, whose `raised` is any exception. The calls
-- that the code does not guard (Registry.resolve beyond UnknownActionError, ScopeResolver.scope_for,
-- AuditSink.write, the worker's kill check and revalidator in a claim) are taken to return. GateEngine.evaluate, which it does not guard either, may
-- raise, and its exception then leaves the call.
--
-- Ids, receipts and instants, which uuid4 and the clock give, are arguments. Instants and durations
-- are microseconds in the natural numbers, an instant's counted from datetime.min; a deadline past
-- datetime.max raises, as in the code. Dictionaries with a fixed set of keys are records; maps
-- are association lists. The loops go through a list that they shorten, but for the tokenizer and
-- the parser of conditions, which take fuel: one unit for each character, as each step reads one at
-- least, and eight for each token and eight more, as the parser goes down fewer than eight levels
-- before it reads a token.
--
-- The gates act on one world as well, through checks, hooks, sources, counters and obligation
-- adapters that may raise; an exception that a gate does not catch is `raise foreign`. The text of a
-- reason is kept in its fixed part. The engine is a parameter of the pipeline and a definition in
-- Gates.
--
-- Parameters: Python's character classes, floats, regular expressions and readings of numbers in
-- conditions and in the gates, the evaluation of a kill predicate, the repr and the JSON text of a
-- value, the text of a hold's identity, and the pipeline's dependencies. What the code relies on of
-- them is stated where it is needed: the gate engine's match evidence has the entries that a
-- reservation reads.
--
-- The cached kill store is a step relation: this instance and others write to one backing store, also
-- between the two reads of a reload, and messages of the bus may be late or lost.
--
-- Not modelled: the closure check and the content hooks of the gates, which are wired from outside
-- like a deployment's own checks; the resolution of a call in the registry, the linter and the
-- report, which are other parts of the repository; the Postgres and Redis stores, connectors and
-- transports, which are input and output; the generator, the conformance kit and the demos. A
-- connector's receipt on a settled row (PendingAction.result) is left out, as nothing here reads it.
pub mod Prelude
pub mod Values
pub mod Models
pub mod Failure
pub mod Reasons
pub mod Feedback
pub mod Compiler
pub mod Audit
pub mod Kill
pub mod Obligation
pub mod Outbox
pub mod Pipeline
pub mod Dispatch
pub mod Counters
pub mod Condition
pub mod Gates
pub mod Examples
