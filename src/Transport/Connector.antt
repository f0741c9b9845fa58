-- ===== src/Transport/Connector.antt =====
-- internal/transport/connector.go: the reconnect loop, as a machine whose events are what the loop
-- waits for. A link is the number of its `*LinkedSession`.
pub mod Schedule
pub mod Snapshot
pub mod Tests
use mhp.Prelude.{
  ℕ, Bool, true, false, Option, none, some, List, [], ◌∷◌, ◌==◌, ℤ, leℤ, if◌then◌else◌,
}
use mhp.Errors.{Error, canceled, is}
use mhp.Transport.Timing.{Timing, next_backoff}

-- Where `Run` stands: in `connect`, in `waitBackoff`, in `serve` with a link, or returned.
pub data Phase : Type 0 where
  connecting waiting returned : Phase
  serving : ℕ → Phase

pub record Connector : Type 0 where
  pub current : Option ℕ
  pub backoff : ℤ
  pub phase : Phase
  -- the delays that `waitBackoff` was called with, newest first
  pub waits : List ℤ

pub data Event : Type 0 where
  -- `connect` fails, or returns a link
  connect_fails : Error → Event
  connects : ℕ → Event
  -- the timer of `waitBackoff` fires
  timer_fires : Event
  -- the session of the served link ends after this uptime
  session_ends : ℤ → Event
  -- the parent context is cancelled
  parent_cancelled : Event

unfoldable pub start : Timing → Connector
start t = record { current = none; backoff = t.min_backoff; phase = connecting; waits = [] }

-- `Snapshot`.
unfoldable pub snapshot : Connector → Option ℕ
snapshot c = c.current

abbrev pub swapped : Option ℕ → ℕ → Option ℕ
swapped none link = none
swapped (some l) link = if l == link then none else some l

-- `clearIf`: compare and swap.
unfoldable pub clear_if : Connector → ℕ → Connector
clear_if c link = record c { current = swapped c.current link }

-- `HealthySince(HealthyWindow)`, and the reset of the delay.
unfoldable pub after_session : Timing → ℤ → Connector → Connector
after_session t uptime c =
    if leℤ t.healthy_window uptime then record c { backoff = t.min_backoff } else c

-- One event; an event that the phase does not wait for changes nothing. While it connects, `Run`
-- sees a cancelled parent only as the failure of the attempt.
unfoldable pub advance : Timing → Phase → Event → Connector → Connector
unfolding clear_if after_session
advance t connecting (connect_fails e) c =
    if is canceled e
    then record c { phase = returned }
    else record c { phase = waiting; waits = c.backoff ∷ c.waits }
advance t connecting (connects link) c = record c { current = some link; phase = serving link }
advance t waiting timer_fires c = record c {
  backoff = next_backoff t c.backoff;
  phase = connecting;
}
advance t waiting parent_cancelled c = record c { phase = returned }
advance t (serving link) (session_ends uptime) c =
    after_session t uptime (record (clear_if c link) { phase = connecting })
advance t (serving link) parent_cancelled c = record c { phase = returned }
advance t phase event c = c

unfoldable pub step : Timing → Connector → Event → Connector
unfolding advance
step t c event = advance t c.phase event c

unfoldable pub run : Timing → Connector → List Event → Connector
run t c [] = c
run t c (event ∷ events) = run t (step t c event) events
