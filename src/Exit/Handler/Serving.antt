-- ===== src/Exit/Handler/Serving.antt =====
-- What `ServeConn` leaves behind (internal/exit/handler.go).
use mhp.Prelude.{◌≡◌, refl, Bool, true, false, not, ◌&&◌, ◌||◌, Option, List, [], ◌∷◌, arith}
use mhp.Errors.{Error}
use mhp.Exit.Handler.{
  Server, starting, serving, stopping, returned, Watcher, unborn, watching, finished, Stream,
  new_stream, Event, serves, session_ends, sees_done, sees_stop, joins, advance, step, run,
}

-- A watcher that is under way exactly while its server is, from start to join; a connection that it
-- closed belongs to a session that has ended.
abbrev pub fits : Server → Watcher → Bool → Bool → Bool
fits starting unborn session_done conn_closed = not conn_closed
fits starting watcher session_done conn_closed = false
fits (returned e) watching session_done conn_closed = false
fits (returned e) unborn session_done conn_closed = not conn_closed
fits (returned e) finished session_done conn_closed = session_done || not conn_closed
fits serving unborn session_done conn_closed = false
fits serving watching session_done conn_closed = not conn_closed
fits serving finished session_done conn_closed = session_done && conn_closed
fits (stopping e) unborn session_done conn_closed = false
fits (stopping e) watching session_done conn_closed = not conn_closed
fits (stopping e) finished session_done conn_closed = session_done || not conn_closed

abbrev pub IsSound : Stream → Type 0
IsSound s = fits s.server s.watcher s.session_done s.conn_closed ≡ true

advance-IsSound :
    (event : Event) (server : Server) (watcher : Watcher) (done closed : Bool) (s : Stream)
    → s.server ≡ server
    → s.watcher ≡ watcher
    → s.session_done ≡ done
    → s.conn_closed ≡ closed
    → IsSound s
    → IsSound (advance event server watcher s)
unfolding advance
advance-IsSound event server watcher done closed s p q d c i = ground (arith, p, q, d, c, i)

pub run-IsSound : (s : Stream) (events : List Event) → IsSound s → IsSound (run s events)
unfolding run step
run-IsSound s [] i = i
run-IsSound s (event ∷ events) i =
    run-IsSound (step s event) events (
      advance-IsSound event s.server s.watcher s.session_done s.conn_closed s refl refl refl refl i)

abbrev pub is_returned : Server → Bool
is_returned (returned e) = true
is_returned server = false

abbrev pub is_serving : Server → Bool
is_serving serving = true
is_serving server = false

abbrev pub is_watching : Watcher → Bool
is_watching watching = true
is_watching watcher = false

pub reached :
    (s : Server) (w : Watcher) (done closed : Bool)
    → fits s w done closed ≡ true
    → (is_returned s && is_watching w ≡ false)
      × (closed && not done ≡ false)
      × (is_serving s && not (is_watching w) && not closed ≡ false)
reached s w done closed h = (ground (arith, h), ground (arith, h), ground (arith, h))

-- However the goroutines of a stream's `ServeConn` alternate: its watcher does not outlive it; the
-- watcher closes the stream only when the session has ended; and while the SOCKS server runs, the
-- watcher watches or has closed the stream.
pub run-new_stream :
    (events : List Event)
    → let s = run new_stream events in
      (is_returned s.server && is_watching s.watcher ≡ false)
      × (s.conn_closed && not s.session_done ≡ false)
      × (is_serving s.server && not (is_watching s.watcher) && not s.conn_closed ≡ false)
unfolding new_stream
run-new_stream events =
    let s = run new_stream events in
    reached s.server s.watcher s.session_done s.conn_closed (run-IsSound new_stream events refl)

ends_from :
    (s : Stream) (e : Option Error) (w : Watcher) (c : Bool)
    → s.watcher ≡ w
    → s.conn_closed ≡ c
    → s.server ≡ serving
    → fits serving w s.session_done c ≡ true
    → let t = run s (session_ends ∷ sees_done ∷ serves e ∷ sees_stop ∷ joins ∷ []) in
      (t.server ≡ returned e) × (t.conn_closed ≡ true)
unfolding run step advance
ends_from s e unborn c w k h i = cc
ends_from s e watching c w k h i = ground (arith, w, h)
ends_from s e finished c w k h i = ground (arith, w, h, k, i)

-- Wherever the goroutines of a stream stand while its SOCKS server runs: once the session ends, the
-- stream is closed, and when the server then returns, `ServeConn` returns its error.
pub run-session_ends :
    (events : List Event) (e : Option Error)
    → (run new_stream events).server ≡ serving
    → let s =
        run
          (run new_stream events)
          (session_ends ∷ sees_done ∷ serves e ∷ sees_stop ∷ joins ∷ []) in
      (s.server ≡ returned e) × (s.conn_closed ≡ true)
unfolding new_stream
run-session_ends events e h =
    let s = run new_stream events in
    let fine = run-IsSound new_stream events refl in
    ends_from s e s.watcher s.conn_closed refl refl h (rw h at fine)
