-- ===== src/Engine/Limiter/Examples.antt =====
-- Tests of the rate limiter.
use buffdata.Prelude.{List, ◌∷◌, ◌≡◌, [], refl, ◌≤◌, arith, ◌+◌}
use buffdata.Engine.Limiter.{Limiter, take_turn, through, window}
use buffdata.Engine.Limiter.Window.{in_windows, Clock, take_turns, fresh, take_turns-rate}
use buffdata.Engine.Limiter.Wait.{take_turn-wakes}

abbrev clocks : List Clock
clocks =
    record { now = 10; later = 11 }
    ∷ record { now = 20; later = 20 }
    ∷ record { now = 30; later = 30 }
    ∷ record { now = 60080; later = 60081 }
    ∷ []

third_waits : (take_turns clocks (fresh 2 5)).let_through ≡ 11 ∷ 20 ∷ 60081 ∷ []
unfolding take_turn
third_waits = refl

take_turns-rate_example : in_windows 11 (take_turns clocks (fresh 2 5)).let_through ≤ 2
take_turns-rate_example = take_turns-rate 2 5 clocks 11 (omega arith)

abbrev busy : Limiter
busy = record { max_rpm = 2; slots = 3; timestamps = 11 ∷ 20 ∷ [] }

take_turn-wakes_example :
    ((take_turn 60100 60100 (take_turn 30 30 busy).1).0 ≡ through) × (60031 ≤ window + 50)
unfolding take_turn
take_turn-wakes_example =
    take_turn-wakes 20 30 30 60100 60100 60031 busy (omega arith)
      (record { size = omega arith; past = (omega arith, (omega arith, tt)) }) (omega arith) refl
      (omega arith)
