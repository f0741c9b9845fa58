-- ===== src/Exit/Streams.antt =====
-- The streams of a session of the exit-node: `serveSession` and its acceptor with the goroutine that
-- `serveConn` starts for each stream (internal/exit/broker.go), which runs the handler's `ServeConn`
-- (internal/exit/handler.go).
pub mod Handled
pub mod Tests
use mhp.Prelude.{ℕ, zero, suc, List, [], ◌∷◌}
use mhp.Exit.Broker.{Phase, Acceptor, looping, holding, Serving, new_serving, hands_over}
use mhp.Exit.Broker
use mhp.Exit.Handler.{Stream, new_stream}
use mhp.Exit.Handler

-- The goroutine of `serveConn` for a stream.
pub record Request : Type 0 where
  pub conn : ℕ
  pub stream : Stream

pub record Session : Type 0 where
  pub serving : Serving
  -- the goroutines that `serveConn` has started, newest first
  pub requests : List Request

unfoldable pub new_session : Session
new_session = record { serving = new_serving; requests = [] }

-- `serveConn`.
unfoldable pub serve_conn : ℕ → List Request → List Request
serve_conn conn requests = record { conn = conn; stream = new_stream } ∷ requests

-- What the loop of `serveSession` starts at an event: it passes a stream that it received on.
abbrev pub started : Broker.Event → Phase → Acceptor → List Request → List Request
started hands_over looping (holding conn) requests = serve_conn conn requests
started event phase acceptor requests = requests

-- A step of the n-th of these goroutines.
abbrev pub handle : Handler.Event → ℕ → List Request → List Request
handle event n [] = []
handle event zero (r ∷ rs) = record r { stream = Handler.step r.stream event } ∷ rs
handle event (suc n) (r ∷ rs) = r ∷ handle event n rs

pub data Event : Type 0 where
  brokers : Broker.Event → Event
  handles : ℕ → Handler.Event → Event

unfoldable pub step : Session → Event → Session
unfolding serve_conn
step s (brokers event) = record {
  serving = Broker.step s.serving event;
  requests = started event s.serving.phase s.serving.acceptor s.requests;
}
step s (handles n event) = record s { requests = handle event n s.requests }

unfoldable pub run : Session → List Event → Session
run s [] = s
run s (event ∷ events) = run (step s event) events
