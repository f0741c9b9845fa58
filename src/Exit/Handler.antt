-- ===== src/Exit/Handler.antt =====
-- internal/exit/handler.go: the options of the handler, its rule, and the goroutines of `ServeConn`.
-- (What it does with a CONNECT request is in Exit/Connect.)
pub mod Defaults
pub mod Requests
pub mod Serving
pub mod Tests
use mhp.Prelude.{
  ℕ, ◌*◌, ℤ, pos, ltℤ, leℤ, Bool, true, false, ◌==◌, Option, none, some, List, [], ◌∷◌,
  if◌then◌else◌,
}
use mhp.Errors.{Error}
use mhp.Transport.Timing.{seconds}

-- Nanoseconds, and the bound of the resolver.
pub record Options : Type 0 where
  pub setup_timeout : ℤ
  pub dial_timeout : ℤ
  pub resolve_timeout : ℤ
  pub resolve_bound : ℤ

unfoldable pub defaults : Options → Options
defaults o = record {
  setup_timeout = if leℤ o.setup_timeout (pos 0) then seconds 15 else o.setup_timeout;
  dial_timeout = if leℤ o.dial_timeout (pos 0) then seconds 10 else o.dial_timeout;
  resolve_timeout = if leℤ o.resolve_timeout (pos 0) then seconds 5 else o.resolve_timeout;
  resolve_bound = if ltℤ o.resolve_bound (pos 1) then pos 16 else o.resolve_bound;
}

-- `ServeConn` before it starts, in `srv.ServeConn`, behind `close(stop)` with the error that it will
-- return, and returned.
pub data Server : Type 0 where
  starting serving : Server
  stopping returned : Option Error → Server

-- The goroutine that watches the session.
pub data Watcher : Type 0 where
  unborn watching finished : Watcher

pub record Stream : Type 0 where
  pub server : Server
  pub watcher : Watcher
  pub session_done : Bool
  pub conn_closed : Bool

unfoldable pub new_stream : Stream
new_stream = record {
  server = starting;
  watcher = unborn;
  session_done = false;
  conn_closed = false;
}

-- `conn.SetDeadline` returns; the session ends; the watcher sees the session done, or `stop`
-- closed; `srv.ServeConn` returns; `<-done` is received.
pub data Event : Type 0 where
  arms serves : Option Error → Event
  session_ends sees_done sees_stop joins : Event

unfoldable pub advance : Event → Server → Watcher → Stream → Stream
advance (arms none) starting watcher s = record s { server = serving; watcher = watching }
advance (arms (some e)) starting watcher s = record s { server = returned (some e) }
advance session_ends server watcher s = record s { session_done = true }
advance sees_done server watching s =
    if s.session_done then record s { watcher = finished; conn_closed = true } else s
advance sees_stop (stopping e) watching s = record s { watcher = finished }
advance (serves e) serving watcher s = record s { server = stopping e }
advance joins (stopping e) finished s = record s { server = returned e }
advance event server watcher s = s

unfoldable pub step : Stream → Event → Stream
unfolding advance
step s event = advance event s.server s.watcher s

unfoldable pub run : Stream → List Event → Stream
run s [] = s
run s (event ∷ events) = run (step s event) events
