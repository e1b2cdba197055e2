-- ===== src/Examples/Timing.antt =====
-- The theorems on request pacing (src/modbus_connection/_pacing.py) at concrete inputs.
use modbus_connection.Prelude.{◌≡◌, refl, none, List, [], ◌∷◌}
use modbus_connection.Pacing.{Pacer, Request, run, gap_of}
use modbus_connection.Pacing.Gaps.{IsSpaced, run-IsSpaced}

abbrev slow_unit : Pacer
slow_unit = record {
  message_spacing = 5;
  last_finished_at = 100;
  unit_spacing = (7, 30) ∷ [];
  last_unit_id = none;
}

abbrev three_requests : List Request
three_requests =
    record { unit_id = 1; arrives = 90; late = 1; takes = 10 }
    ∷ record { unit_id = 7; arrives = 90; late = 0; takes = 10 }
    ∷ record { unit_id = 1; arrives = 200; late = 0; takes = 10 }
    ∷ []

run-IsSpaced_example : IsSpaced slow_unit none 100 (run three_requests slow_unit)
run-IsSpaced_example = run-IsSpaced three_requests slow_unit

-- The second waits for its unit's gap, the third for what is left of it.
run_test :
    run three_requests slow_unit
    ≡ record { unit = 1; started = 106; finished = 116 }
      ∷ record { unit = 7; started = 146; finished = 156 }
      ∷ record { unit = 1; started = 200; finished = 210 }
      ∷ []
unfolding run gap_of
run_test = refl
