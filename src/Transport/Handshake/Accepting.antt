-- ===== src/Transport/Handshake/Accepting.antt =====
-- The accept loop `Handshake.Run` (internal/transport/handshake.go).
use mathlib.Core.List.{append-nil}
use mhp.Prelude.{◌≡◌, refl, ap, ◌∙◌, true, false, List, [], ◌∷◌, ◌++◌, All}
use mhp.Errors.{Error, Result, ok, err}
use mhp.Transport.Conn.{Conn}
use mhp.Transport.Framing.{Codec}
use mhp.Transport.Records.{Hello, Response}
use mhp.Transport.Timing.{Timing}
use mhp.Transport.Handshake.{
  Verifier, Session, ServerEnv, Arrival, connects, accept_error, RunResult, serves, settle,
  handshake, run,
}

-- The socket has been closed.
abbrev pub IsClosed : Conn → Type 0
IsClosed c = c.closed ≡ true

settle_refused :
    (p : Result Session × Conn) (rest : RunResult × List Conn) (e : Error)
    → p.0 ≡ err e
    → settle p rest ≡ (rest.0, record (p.1) { closed = true } ∷ rest.1)
settle_refused (ok s, c) rest e h = cc
settle_refused (err x, c) rest e h = refl

settle-IsClosed :
    (p : Result Session × Conn) (rest : RunResult × List Conn)
    → All IsClosed rest.1
    → All IsClosed (settle p rest).1
settle-IsClosed (ok s, c) rest h = tt
settle-IsClosed (err e, c) rest h = (refl, h)

module _ (hellos : Codec Hello) (responses : Codec Response) (timing : Timing) (v : Verifier) where
  -- The arrival is a socket whose handshake fails.
  abbrev pub IsRefused : Arrival → Type 0
  IsRefused (connects env c) = (e : Error) × ((handshake hellos responses env timing v c).0 ≡ err e)
  IsRefused (accept_error e cancelled) = ⊥

  -- The sockets of failed handshakes, each as its handshake leaves it, and then closed.
  abbrev pub turned_away : List Arrival → List Conn
  turned_away [] = []
  turned_away (connects env c ∷ arrivals) =
      record (handshake hellos responses env timing v c).1 { closed = true } ∷ turned_away arrivals
  turned_away (accept_error e cancelled ∷ arrivals) = turned_away arrivals

  -- Sockets that fail are closed, and the loop goes on behind them as if they had not come.
  pub run_refused :
      (bad later : List Arrival)
      → All IsRefused bad
      → ((run hellos responses timing v (bad ++ later)).0 ≡ (run hellos responses timing v later).0)
        × ((run hellos responses timing v (bad ++ later)).1
            ≡ turned_away bad ++ (run hellos responses timing v later).1)
  unfolding run
  run_refused [] later h = (refl, refl)
  run_refused (connects env c ∷ bad) later h =
      let step =
        settle_refused (handshake hellos responses env timing v c)
          (run hellos responses timing v (bad ++ later)) h.0.0 h.0.1 in
      let rest = run_refused bad later h.1 in
      (
        ap (λ q. q.0) step ∙ rest.0,
        ap (λ q. q.1) step
            ∙ ap (λ cs. record (handshake hellos responses env timing v c).1 { closed = true } ∷ cs)
                rest.1,
      )
  run_refused (accept_error e b ∷ bad) later h = absurd h.0

  -- Every socket that the loop turned away is closed.
  pub run-IsClosed : (later : List Arrival) → All IsClosed (run hellos responses timing v later).1
  unfolding run
  run-IsClosed [] = tt
  run-IsClosed (accept_error e true ∷ later) = tt
  run-IsClosed (accept_error e false ∷ later) = tt
  run-IsClosed (connects env c ∷ later) =
      settle-IsClosed (handshake hellos responses env timing v c) _ (run-IsClosed later)

  run_good :
      (later : List Arrival) (env : ServerEnv) (c c' : Conn) (s : Session)
      → handshake hellos responses env timing v c ≡ (ok s, c')
      → run hellos responses timing v (connects env c ∷ later) ≡ (serves s c', [])
  unfolding run
  run_good later env c c' s good = rw good

  -- The loop returns the session of the first socket whose handshake succeeds, and turned away
  -- exactly the sockets before it: each of these is left as its failed handshake left it, and closed.
  pub run_serves :
      (bad later : List Arrival) (env : ServerEnv) (c c' : Conn) (s : Session)
      → All IsRefused bad
      → handshake hellos responses env timing v c ≡ (ok s, c')
      → let out = run hellos responses timing v (bad ++ connects env c ∷ later) in
        (out.0 ≡ serves s c') × (out.1 ≡ turned_away bad) × All IsClosed out.1
  run_serves bad later env c c' s h good =
      let (first, second) = run_refused bad (connects env c ∷ later) h in
      let here = run_good later env c c' s good in
      (
        first ∙ ap (λ q. q.0) here,
        second ∙ ap (λ q. turned_away bad ++ q.1) here ∙ append-nil (turned_away bad),
        run-IsClosed (bad ++ connects env c ∷ later),
      )
