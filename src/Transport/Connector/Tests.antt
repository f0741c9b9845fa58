-- ===== src/Transport/Connector/Tests.antt =====
-- The reconnect loop at concrete inputs.
use Prim.Native.Nat.{min}
use mhp.Prelude.{ℕ, ◌*◌, ◌^◌, ◌≡◌, refl, List, [], ◌∷◌, ℤ, pos, length, arith}
use mhp.Errors.{sentinel, handshake_failed, is}
use mhp.Transport.Timing.{default_timing}
use mhp.Transport.Connector.{
  connecting, waiting, Connector, Event, connect_fails, connects, timer_fires, start, snapshot,
  step, run,
}
use mhp.Transport.Connector.Schedule.{
  Schedule, IsPaced, failures, flaps, run-start-IsPaced, nth_wait, flaps_without_wait,
}
use mhp.Transport.Connector.Snapshot.{Shows, snapshot-phase}

default-Schedule : Schedule default_timing 1_000_000_000 30_000_000_000
default-Schedule = record {
  is_floor = refl;
  is_ceiling = refl;
  ordered = omega arith;
  small = omega arith;
}

abbrev events : List Event
events = connect_fails (sentinel handshake_failed) ∷ timer_fires ∷ connects 7 ∷ []

run-start-IsPaced_example :
    IsPaced 1_000_000_000 30_000_000_000 (run default_timing (start default_timing) events)
run-start-IsPaced_example =
    run-start-IsPaced default_timing 1_000_000_000 30_000_000_000 events default-Schedule

abbrev before : Connector
before = run default_timing (start default_timing) (failures 6 (sentinel handshake_failed))

abbrev after : Connector
after = step default_timing before (connect_fails (sentinel handshake_failed))

nth_wait_at_input :
    (after.phase ≡ waiting)
    × (after.waits ≡ pos (min (1_000_000_000 * 2 ^ 6) 30_000_000_000) ∷ before.waits)
    × (length before.waits ≡ 6)
unfolding is
nth_wait_at_input =
    nth_wait default_timing 1_000_000_000 30_000_000_000 (sentinel handshake_failed) 6
      default-Schedule refl

abbrev sessions : List (ℕ × ℤ)
sessions = (3, pos 5) ∷ (4, pos 6) ∷ []

flaps_without_wait_at_input :
    ((run default_timing (start default_timing) (flaps sessions)).phase ≡ connecting)
    × ((run default_timing (start default_timing) (flaps sessions)).waits ≡ [])
unfolding start
flaps_without_wait_at_input = flaps_without_wait default_timing sessions (start default_timing) refl

snapshot-phase_at_input :
    Shows
      (run default_timing (start default_timing) events).phase
      (snapshot (run default_timing (start default_timing) events))
snapshot-phase_at_input = snapshot-phase default_timing events
