-- ===== src/Stream/Duplex/Tests.antt =====
-- The duplex at concrete inputs.
use mhp.Prelude.{◌≡◌, refl, true, false, none, some, List, [], ◌∷◌}
use mhp.Errors.{sentinel, drain_timeout, canceled}
use mhp.Stream.Duplex.{Conn, has_close_write, plain, Turn, result, times_out, Finished, run, copier}
use mhp.Stream.Duplex.Ends.{EndsWell, run-EndsWell}

abbrev conn : Conn
conn = record { kind = has_close_write; deadline_past = false; closed = false }

abbrev shut : Conn
shut = record conn { deadline_past = true; closed = true }

-- The first direction ends, and the other one outlasts the timer.
abbrev turns : List Turn
turns = result (copier plain none (some (sentinel canceled))) ∷ times_out ∷ []

abbrev timed_out : Finished
timed_out = record {
  error = some (sentinel drain_timeout);
  received = none ∷ [];
  drained = 1;
  inbound = shut;
  outbound = shut;
}

run-timed_out : run conn conn turns ≡ some timed_out
unfolding run copier
run-timed_out = refl

run-EndsWell_example : EndsWell conn conn timed_out
run-EndsWell_example = run-EndsWell conn conn turns timed_out run-timed_out
