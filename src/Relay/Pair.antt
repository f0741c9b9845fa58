-- ===== src/Relay/Pair.antt =====
-- internal/relay/bridge.go: the goroutines of a pair that `launch` starts, over internal/stream. A
-- connection is what its Reads return and what its Writes do.
pub mod Reports
pub mod Tests
use mhp.Prelude.{ℕ, ℤ, pos, Bool, true, false, Option, none, some, List, [], ◌∷◌, if◌then◌else◌}
use mhp.Errors.{Error, sentinel, canceled, is}
use mhp.Stream.Duplex.{Conn, Kind, has_close_write, close_write, Finished}
use mhp.Stream.Copy.{Source, Sink, CounterConn, Direction}
use mhp.Stream.Copy.Pairs.{Moment, up_ends, down_ends, ctx_ends, timer_fires, Carried, carry}

-- What the watcher of the pair waits for: a session ends, or the parent context.
pub data Cause : Type 0 where
  proxy_session_closes exit_session_closes : Cause
  parent_ends : Error → Cause

-- What happens to the pair: a direction ends, the drain timer fires, or the watcher wakes.
pub data Happening : Type 0 where
  proxy_ends exit_ends drains : Happening
  wakes : Cause → Happening

-- `child.Err()`: of a session's end, the watcher calls `cancel`; the parent's end is passed on.
abbrev pub child_error : Cause → Error
child_error (parent_ends e) = e
child_error cause = sentinel canceled

abbrev pub seen : Happening → Moment
seen proxy_ends = up_ends
seen exit_ends = down_ends
seen drains = timer_fires
seen (wakes cause) = ctx_ends (child_error cause)

abbrev pub moments : List Happening → List Moment
moments [] = []
moments (h ∷ hs) = seen h ∷ moments hs

-- One end of a pair: a stream in its adapter, with what its closing for writing answers.
pub record End : Type 0 where
  pub conn : Conn
  pub source : Source
  pub sink : Sink
  pub close_answer : Option Error

-- `counterConn.CloseWrite`; an Adapter has a `CloseWrite`.
abbrev pub counter_close_write : Option Error → Option Error
counter_close_write answer = close_write has_close_write answer

-- A `counterConn` around the adapter, and the direction that writes to it.
abbrev pub towards : Source → End → Direction
towards source e = record {
  source = source;
  kind = has_close_write;
  target = record { conn = e.sink; n = pos 0 };
  close_answer = counter_close_write e.close_answer;
}

-- What the goroutine of a pair logs at its end, and what its duplex left.
pub record Report : Type 0 where
  pub carried : Carried
  pub copy_failed : Option Error
  pub bytes_proxy_to_exit : ℤ
  pub bytes_exit_to_proxy : ℤ

-- "bridge copy failed": every error but a cancellation.
abbrev pub logged : Option Error → Option Error
logged none = none
logged (some e) = if is canceled e then none else some e

abbrev pub failure : Option Finished → Option Error
failure none = none
failure (some f) = logged f.error

abbrev pub report : Carried → Report
report c = record {
  carried = c;
  copy_failed = failure c.finished;
  bytes_proxy_to_exit = c.up.n;
  bytes_exit_to_proxy = c.down.n;
}

unfoldable pub bridge_pair : End → End → List Happening → Report
unfolding carry close_write
bridge_pair proxy exit hs = report (
    carry proxy.conn exit.conn (towards proxy.source exit) (towards exit.source proxy) (moments hs))
