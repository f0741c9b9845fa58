-- ===== src/Transport/Session.antt =====
-- internal/transport/session.go: the end of a session, as steps of the calls of `Close` and of the
-- goroutine that mirrors the end of the mux. (Its identity is the record of Transport/Handshake.)
pub mod Ends
pub mod Tests
use mhp.Prelude.{
  ℕ, ◌+◌, Bool, true, false, ℤ, leℤ, Option, none, some, List, [], ◌∷◌, if◌then◌else◌,
}
use mhp.Errors.{Error, mark, close_failed}

pub record Lifetime : Type 0 where
  -- whether `closeOnce` has run, and how often `close(s.closing)` did
  pub once : Bool
  pub closes : ℕ
  -- whether `mux.CloseChan()` is closed, and whether the goroutine still waits for it
  pub mux_closed : Bool
  pub mirror : Bool
  -- the results of the calls of `Close`, newest first
  pub results : List (Option Error)

unfoldable pub new_session : Lifetime
new_session = record { once = false; closes = 0; mux_closed = false; mirror = true; results = [] }

-- `s.closeOnce.Do(func() { close(s.closing) })`.
abbrev pub close_closing : Lifetime → Lifetime
close_closing s = if s.once then s else record s { once = true; closes = s.closes + 1 }

abbrev pub close_result : Option Error → Option Error
close_result none = none
close_result (some e) = some (mark close_failed e)

-- `Close`, with the answer of `s.Mux.Close()`, which closes the mux's channel.
unfoldable pub close : Lifetime → Option Error → Lifetime
close s answer = record (close_closing s) {
  mux_closed = true;
  results = close_result answer ∷ s.results;
}

-- The goroutine of `newSession`.
unfoldable pub mirror_close : Lifetime → Lifetime
mirror_close s =
    if s.mirror then if s.mux_closed then record (close_closing s) { mirror = false } else s else s

-- Whether `Done()` is closed.
abbrev pub done : Lifetime → Bool
done s = s.once

-- `HealthySince(min)` after `Uptime()`.
unfoldable pub healthy_since : ℤ → ℤ → Bool
healthy_since uptime min = leℤ min uptime

-- A call of `Close`; the mux ends by itself; the goroutine sees it.
pub data Event : Type 0 where
  closes : Option Error → Event
  mux_ends mirrors : Event

unfoldable pub step : Lifetime → Event → Lifetime
unfolding close mirror_close
step s (closes answer) = close s answer
step s mux_ends = record s { mux_closed = true }
step s mirrors = mirror_close s

unfoldable pub run : Lifetime → List Event → Lifetime
run s [] = s
run s (event ∷ events) = run (step s event) events
