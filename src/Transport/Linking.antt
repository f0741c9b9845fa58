-- ===== src/Transport/Linking.antt =====
-- The connector over its attempts: `connect` of internal/transport/connector.go calls `authenticate`
-- of internal/transport/authenticator.go.
pub mod Welcomed
pub mod Published
pub mod Tests
use mhp.Prelude.{ℕ, ℤ, List, [], ◌∷◌}
use mhp.Errors.{Result, ok, err}
use mhp.Transport.Conn.{Conn}
use mhp.Transport.Framing.{Codec}
use mhp.Transport.Records.{Hello, Response}
use mhp.Transport.Handshake.{Session}
use mhp.Transport.Authenticator.{Authenticator, ClientEnv, authenticate}
use mhp.Transport.Connector.{
  Connector, Event, connect_fails, connects, timer_fires, session_ends, parent_cancelled, step,
}

-- What `Run` waits for: an attempt on a new connection, the timer, the end of the session after this
-- uptime, or the parent context.
pub data Moment : Type 0 where
  attempts : ClientEnv → Conn → Moment
  waits_over parent_ends : Moment
  session_over : ℤ → Moment

abbrev pub connect : Result Session × Conn → Event
connect (ok s, c) = connects s.mux
connect (err e, c) = connect_fails e

module _ (hellos : Codec Hello) (responses : Codec Response) (a : Authenticator) where
  unfoldable pub event_of : Moment → Event
  unfolding authenticate
  event_of (attempts env c) = connect (authenticate hellos responses env a c)
  event_of waits_over = timer_fires
  event_of parent_ends = parent_cancelled
  event_of (session_over uptime) = session_ends uptime

  unfoldable pub run : Connector → List Moment → Connector
  unfolding event_of
  run c [] = c
  run c (m ∷ ms) = run (step a.timing c (event_of m)) ms
