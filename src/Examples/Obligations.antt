-- ===== src/Examples/Obligations.antt =====
-- Two intents at one obligation line.
use stonefold.Prelude.{◌≡◌, refl, String, Option, none, some, List, [], ◌∷◌}
use stonefold.Values.{empty}
use stonefold.Obligation.{
  Registry, ReserveOutcome, ReleaseOutcome, consumed, already_consumed, reserve, consume, release,
  line_at, set_line, mark, expires, expire_lazily, expire_all,
}
use stonefold.Obligation.Spending.{Op, reserve_op, query_op, run, step}
use stonefold.Obligation.Exclusive.{no_double_spend, reservation-is_exclusive}

abbrev one_line : Registry
one_line = record { records = ("inv-1", empty) ∷ []; lines = []; state_path = none; ttl = some 60 }

abbrev others : List Op
others = reserve_op "inv-1" "rival" 7 ∷ query_op 8 ∷ []

won : (consume one_line "inv-1" "mine" 5 "r1").1 ≡ consumed (some "r1")
unfolding consume expire_lazily expires line_at
won = refl

again :
    (consume (run (consume one_line "inv-1" "mine" 5 "r1").0 others) "inv-1" "mine" 9 "r2").1
    ≡ consumed (some "r1")
unfolding consume reserve run step expire_lazily expires line_at set_line mark expire_all
again = refl

no_double_spend_example :
    (Path String "mine" "mine") × (Path (Option String) (some "r1") (some "r1"))
no_double_spend_example =
    no_double_spend one_line "inv-1" "mine" "mine" "r1" "r2" "r1" 5 9 others (some "r1") won again

abbrev held : Registry
held = (reserve one_line "inv-1" "mine" 5).0

reserved : (reserve one_line "inv-1" "mine" 5).1 ≡ ReserveOutcome.reserved
unfolding reserve expire_lazily expires line_at
reserved = refl

reservation-is_exclusive_example :
    ((reserve held "inv-1" "rival" 30).1 ≡ ReserveOutcome.already_reserved)
    × ((consume held "inv-1" "rival" 30 "r9").1 ≡ already_consumed)
    × (release held "inv-1" "rival" 30 ≡ (held, ReleaseOutcome.not_held))
reservation-is_exclusive_example =
    reservation-is_exclusive one_line "inv-1" "mine" "rival" "r9" 5 30 reserved refl refl
