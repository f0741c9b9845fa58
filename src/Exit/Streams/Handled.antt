-- ===== src/Exit/Streams/Handled.antt =====
-- Which streams the exit-node handles (internal/exit/broker.go, internal/exit/handler.go).
use mhp.Prelude.{
  ℕ, zero, suc, ◌+◌, ◌≡◌, refl, ap, ◌∙◌, false, not, ◌&&◌, List, [], ◌∷◌, All, times, arith,
}
use mhp.Exit.Broker.{
  Phase, looping, returned, Acceptor, checking, asking, gone, holding, Serving, new_serving,
  hands_over, advance,
}
use mhp.Exit.Broker
use mhp.Exit.Broker.Streams.{in_hand, has_returned}
use mhp.Exit.Broker.Streams
use mhp.Exit.Handler.{Stream, new_stream}
use mhp.Exit.Handler
use mhp.Exit.Handler.Serving.{fits, is_returned, is_watching}
use mhp.Exit.Handler.Serving
use mhp.Exit.Streams.{
  Request, Session, new_session, serve_conn, started, handle, Event, brokers, handles, step, run,
}

-- The streams that have a goroutine.
abbrev pub handled : List Request → List ℕ
handled [] = []
handled (r ∷ rs) = r.conn ∷ handled rs

-- A goroutine that has returned has left no watcher behind, and a stream was closed by its watcher
-- only when its session had ended.
pub record IsTidy (r : Request) : Type 0 where
  pub joined : is_returned r.stream.server && is_watching r.stream.watcher ≡ false
  pub closed_late : r.stream.conn_closed && not r.stream.session_done ≡ false

started-served :
    (event : Broker.Event) (phase : Phase) (acceptor : Acceptor) (s : Serving)
    (requests : List Request)
    → handled requests ≡ s.served
    → handled (started event phase acceptor requests) ≡ (advance event phase acceptor s).served
unfolding advance serve_conn
started-served event phase acceptor s requests h = ground (arith, h)

handled-handle :
    (event : Handler.Event) (n : ℕ) (requests : List Request)
    → handled (handle event n requests) ≡ handled requests
handled-handle event n [] = refl
handled-handle event zero (r ∷ rs) = refl
handled-handle event (suc n) (r ∷ rs) = ap (◌∷◌ r.conn) (handled-handle event n rs)

-- What holds of a goroutine at each of its steps.
abbrev pub Sound : Request → Type 0
Sound r = Serving.IsSound r.stream

handle-Sound :
    (event : Handler.Event) (n : ℕ) (requests : List Request)
    → All Sound requests
    → All Sound (handle event n requests)
unfolding Handler.run
handle-Sound event n [] a = tt
handle-Sound event zero (r ∷ rs) a = (Serving.run-IsSound r.stream (event ∷ []) a.0, a.1)
handle-Sound event (suc n) (r ∷ rs) a = (a.0, handle-Sound event n rs a.1)

started-Sound :
    (event : Broker.Event) (phase : Phase) (acceptor : Acceptor) (requests : List Request)
    → All Sound requests
    → All Sound (started event phase acceptor requests)
unfolding serve_conn new_stream
started-Sound hands_over looping (holding conn) requests a = (refl, a)
started-Sound event phase acceptor requests a = a

-- The streams that the broker has passed on are those with a goroutine, and each of these is sound.
record IsRun (s : Session) : Type 0 where
  broker : Streams.IsSound s.serving
  one_each : handled s.requests ≡ s.serving.served
  sound : All Sound s.requests

step-IsRun : (s : Session) (event : Event) → IsRun s → IsRun (step s event)
unfolding step Broker.step
step-IsRun s (brokers event) i = record {
  broker = Streams.step-IsSound s.serving event i.broker;
  one_each =
      started-served event s.serving.phase s.serving.acceptor s.serving s.requests i.one_each;
  sound = started-Sound event s.serving.phase s.serving.acceptor s.requests i.sound;
}
step-IsRun s (handles n event) i = record {
  broker = i.broker;
  one_each = handled-handle event n s.requests ∙ i.one_each;
  sound = handle-Sound event n s.requests i.sound;
}

run-IsRun : (s : Session) (events : List Event) → IsRun s → IsRun (run s events)
unfolding run
run-IsRun s [] i = i
run-IsRun s (event ∷ events) i = run-IsRun (step s event) events (step-IsRun s event i)

tidy : (requests : List Request) → All Sound requests → All IsTidy requests
tidy [] a = tt
tidy (r ∷ rs) (h, hs) =
    let s = r.stream in
    let (x, y, z) = Serving.reached s.server s.watcher s.session_done s.conn_closed h in
    (record { joined = x; closed_late = y }, tidy rs hs)

-- What the broker and the goroutines of its streams have made of a session.
pub record IsHandled (s : Session) : Type 0 where
  -- each accepted stream has one goroutine, or was closed, or is in the acceptor's hand
  pub once :
      (x : ℕ)
      → times x (handled s.requests)
          + times x s.serving.closed
          + times x (in_hand s.serving.acceptor)
        ≡ times x s.serving.accepted
  pub tidied : All IsTidy s.requests
  pub ended : s.serving.session_closed ≡ has_returned s.serving.phase

-- However the loop of a session, its acceptor and the goroutines of its streams alternate: each stream
-- that the acceptor got is handled by exactly one goroutine, or was closed, or is in its hand; a
-- goroutine that has returned has left no watcher behind; and the watcher of a stream has closed it
-- only when the session of the stream had ended. The loop has closed the session of the exit-node
-- exactly when it has returned.
pub run-new_session-IsHandled : (events : List Event) → IsHandled (run new_session events)
unfolding new_session new_serving Broker.run
run-new_session-IsHandled events =
    let i =
      run-IsRun new_session events
        (record { broker = Streams.run-new_serving-IsSound []; one_each = refl; sound = tt }) in
    let s = run new_session events in
    record {
      once = λ x. rw i.one_each (i.broker.held x);
      tidied = tidy s.requests i.sound;
      ended = i.broker.ended;
    }
