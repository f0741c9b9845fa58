-- ===== src/Exit/Broker/Streams.antt =====
-- What becomes of the streams of a session (internal/exit/broker.go).
use mhp.Prelude.{
  ℕ, ◌+◌, ◌≤◌, ◌≡◌, refl, Bool, true, false, List, [], ◌∷◌, ◌++◌, length, times, arith,
}
use mhp.Errors.{Result}
use mhp.Exit.Broker.{
  Phase, looping, returned, Acceptor, asking, gone, holding, Serving, new_serving, Event, checks,
  gives_up, accept_returns, advance, step, run,
}

abbrev pub in_hand : Acceptor → List ℕ
in_hand (holding conn) = conn ∷ []
in_hand _ = []

abbrev pub has_returned : Phase → Bool
has_returned looping = false
has_returned (returned e) = true

-- Every stream is passed on, closed, or in the acceptor's hand; the session is closed from the
-- return of the loop on.
pub record IsSound (s : Serving) : Type 0 where
  pub held :
      (x : ℕ)
      → times x s.served + times x s.closed + times x (in_hand s.acceptor) ≡ times x s.accepted
  pub ended : s.session_closed ≡ has_returned s.phase

advance-IsSound :
    (event : Event) (phase : Phase) (acceptor : Acceptor) (s : Serving)
    → s.phase ≡ phase
    → s.acceptor ≡ acceptor
    → IsSound s
    → IsSound (advance event phase acceptor s)
unfolding advance
advance-IsSound event phase acceptor s p a i = record {
  held = λ x. ground (arith, i.held x, p, a);
  ended = ground (arith, i.ended, p);
}

pub step-IsSound : (s : Serving) (event : Event) → IsSound s → IsSound (step s event)
unfolding step
step-IsSound s event i = advance-IsSound event s.phase s.acceptor s refl refl i

run-IsSound : (s : Serving) (events : List Event) → IsSound s → IsSound (run s events)
unfolding run
run-IsSound s [] i = i
run-IsSound s (event ∷ events) i = run-IsSound (step s event) events (step-IsSound s event i)

-- However the two goroutines of a new session alternate: each stream that `AcceptStream` returned
-- was passed on to be served, or was closed, or is in the acceptor's hand, exactly one of the three;
-- the loop has closed the session exactly when it has returned.
pub run-new_serving-IsSound : (events : List Event) → IsSound (run new_serving events)
unfolding new_serving
run-new_serving-IsSound events =
    run-IsSound new_serving events (record { held = λ x. refl; ended = refl })

-- The streams that may still come once the loop has returned.
abbrev budget : Acceptor → ℕ
budget asking = 1
budget _ = 0

-- What the return of the loop leaves open.
record IsLate (before s : Serving) : Type 0 where
  over : has_returned s.phase ≡ true
  served : s.served ≡ before.served
  taken : length s.accepted + budget s.acceptor ≤ length before.accepted + budget before.acceptor

advance-IsLate :
    (before : Serving) (event : Event) (phase : Phase) (acceptor : Acceptor) (s : Serving)
    → s.phase ≡ phase
    → s.acceptor ≡ acceptor
    → IsLate before s
    → IsLate before (advance event phase acceptor s)
unfolding advance
advance-IsLate before event phase acceptor s p a i = record {
  over = ground (arith, i.over, p);
  served = ground (arith, i.served, i.over, p);
  taken = ground (arith, i.taken, p, a);
}

run-IsLate :
    (before s : Serving) (events : List Event) → IsLate before s → IsLate before (run s events)
unfolding run step
run-IsLate before s [] i = i
run-IsLate before s (event ∷ events) i =
    run-IsLate before (step s event) events
      (advance-IsLate before event s.phase s.acceptor s refl refl i)

budget-le : (a : Acceptor) → budget a ≤ 1
budget-le a = ground arith

-- The acceptor has returned, and the stream that it had in its hand is closed.
pub record IsGivenUp (before s : Serving) : Type 0 where
  pub returned : s.acceptor ≡ gone
  pub closed : s.closed ≡ in_hand before.acceptor ++ before.closed
  pub accepted : s.accepted ≡ before.accepted

gives_up-IsGivenUp :
    (s : Serving) (r : Result ℕ)
    → has_returned s.phase ≡ true
    → IsGivenUp (step s (accept_returns r)) (run s (accept_returns r ∷ gives_up ∷ checks ∷ []))
unfolding run step advance
gives_up-IsGivenUp s r h = record {
  returned = ground (arith, h);
  closed = ground (arith, h);
  accepted = ground (arith, h);
}

-- Once the loop has returned, whatever still happens: no stream is passed on any more, the acceptor
-- takes at most one further stream from the session, and, whatever its pending `AcceptStream`
-- returns, it closes the stream that it then has in its hand, and only this one, takes no other,
-- sees `stop` and returns.
pub run-returned :
    (s : Serving) (events : List Event) (r : Result ℕ)
    → has_returned s.phase ≡ true
    → ((run s events).served ≡ s.served)
      × (length (run s events).accepted ≤ length s.accepted + 1)
      × IsGivenUp
          (step (run s events) (accept_returns r))
          (run (run s events) (accept_returns r ∷ gives_up ∷ checks ∷ []))
run-returned s events r h =
    let late = run-IsLate s s events (record { over = h; served = refl; taken = omega arith }) in
    (
      late.served,
      omega (arith, late.taken, budget-le s.acceptor),
      gives_up-IsGivenUp (run s events) r late.over,
    )
