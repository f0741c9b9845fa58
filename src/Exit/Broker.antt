-- ===== src/Exit/Broker.antt =====
-- internal/exit/broker.go: the loop of `serveSession` and the goroutine of `streamAcceptor`, as steps
-- of the two. A stream is a number. The channel `stop` is closed once the loop has returned.
pub mod Streams
pub mod Links
pub mod Tests
use mhp.Prelude.{ℕ, Bool, true, false, Option, none, some, List, [], ◌∷◌}
use mhp.Errors.{Error, Result, ok, err}

-- `serveSession` in its select, or returned.
pub data Phase : Type 0 where
  looping : Phase
  returned : Option Error → Phase

-- `streamAcceptor` before the check of `stop`, in `AcceptStream`, in the select with a stream, or
-- returned.
pub data Acceptor : Type 0 where
  checking asking gone : Acceptor
  holding : ℕ → Acceptor

pub record Serving : Type 0 where
  pub phase : Phase
  pub acceptor : Acceptor
  pub session_closed : Bool
  -- the streams that `AcceptStream` returned, those passed to `serveConn`, and those closed
  pub accepted : List ℕ
  pub served : List ℕ
  pub closed : List ℕ

unfoldable pub new_serving : Serving
new_serving = record {
  phase = looping;
  acceptor = checking;
  session_closed = false;
  accepted = [];
  served = [];
  closed = [];
}

-- The acceptor checks `stop`; its `AcceptStream` returns; `feed` passes a stream to the loop; the
-- acceptor sees `stop` with a stream in hand; the loop sees its context done; it sees the session
-- done.
pub data Event : Type 0 where
  checks hands_over gives_up session_done : Event
  accept_returns : Result ℕ → Event
  ctx_done : Error → Event

-- An event that neither waits for changes nothing. A select with several ready cases takes any.
unfoldable pub advance : Event → Phase → Acceptor → Serving → Serving
advance checks looping checking s = record s { acceptor = asking }
advance checks (returned e) checking s = record s { acceptor = gone }
advance (accept_returns (ok conn)) phase asking s = record s {
  acceptor = holding conn;
  accepted = conn ∷ s.accepted;
}
advance (accept_returns (err e)) phase asking s = record s { acceptor = gone }
advance hands_over looping (holding conn) s = record s {
  acceptor = checking;
  served = conn ∷ s.served;
}
advance gives_up (returned e) (holding conn) s = record s {
  acceptor = checking;
  closed = conn ∷ s.closed;
}
advance (ctx_done e) looping acceptor s = record s {
  phase = returned (some e);
  session_closed = true;
}
advance session_done looping acceptor s = record s { phase = returned none; session_closed = true }
advance event phase acceptor s = s

unfoldable pub step : Serving → Event → Serving
unfolding advance
step s event = advance event s.phase s.acceptor s

unfoldable pub run : Serving → List Event → Serving
run s [] = s
run s (event ∷ events) = run (step s event) events
