-- ===== src/Examples/FanOuts.antt =====
-- A payment of two invoices that are decided one by one and paid by one call.
use stonefold.Prelude.{true, ℕ, none, some, List, [], ◌∷◌}
use stonefold.Values.{Value}
use stonefold.Models.Records.{ItemsDef, EvalResult}
use stonefold.Pipeline.{Deps}
use stonefold.Pipeline.Items.FanOut.{fan_out}
use stonefold.Examples.Calls.{deps, call}
use stonefold.Examples.Verdicts.{paid}
use stonefold.Examples.Fixtures.{payer, session}

-- no gates, and nothing to stage to
abbrev plain : Deps ℕ
plain = record deps { gates = none; outbox = none }

abbrev invoices : ItemsDef
invoices = record { field = "invoices"; key = ""; independent = true; max_items = none }

abbrev two : List Value
two = Value.str "i1" ∷ Value.str "i2" ∷ []

-- what the call ends in
abbrev answer : EvalResult
answer = elim (fan_out plain payer session none call invoices two 0).value [
  | none ↦ paid
  | some r ↦ r
]
