-- ===== src/Exit/Broker/Tests.antt =====
-- The broker (internal/exit/broker.go) on concrete streams and links.
use mhp.Prelude.{ℕ, ◌≤◌, ◌≡◌, refl, Option, none, some, List, [], ◌∷◌, ◌++◌, length, true}
use mhp.Errors.{ok, err, sentinel, eof, canceled}
use mhp.Exit.Broker.{
  returned, asking, gone, Serving, new_serving, Event, checks, hands_over, gives_up, session_done,
  accept_returns, advance, step, run,
}
use mhp.Exit.Broker.Streams.{IsSound, IsGivenUp, run-new_serving-IsSound, run-returned}
use mhp.Exit.Broker.Links.{Turn, waits, fails, Follows, run-cancelled}
use mhp.Exit.Broker.Links

-- Two streams are served; the session ends while the acceptor has a third.
abbrev three_streams : List Event
three_streams =
    checks
    ∷ accept_returns (ok 5)
    ∷ hands_over
    ∷ checks
    ∷ accept_returns (ok 6)
    ∷ hands_over
    ∷ checks
    ∷ accept_returns (ok 7)
    ∷ session_done
    ∷ gives_up
    ∷ checks
    ∷ []

three_streams-run : run new_serving three_streams ≡ record {
  phase = returned none;
  acceptor = gone;
  session_closed = true;
  accepted = 7 ∷ 6 ∷ 5 ∷ [];
  served = 6 ∷ 5 ∷ [];
  closed = 7 ∷ [];
}
unfolding run step advance new_serving
three_streams-run = refl

run-new_serving-IsSound_at_input : IsSound (run new_serving three_streams)
run-new_serving-IsSound_at_input = run-new_serving-IsSound three_streams

abbrev cancelled : Serving
cancelled = record {
  phase = returned (some (sentinel canceled));
  acceptor = asking;
  session_closed = true;
  accepted = 5 ∷ [];
  served = 5 ∷ [];
  closed = [];
}

abbrev late : List Event
late = accept_returns (ok 6) ∷ hands_over ∷ gives_up ∷ []

run-returned_example :
    ((run cancelled late).served ≡ 5 ∷ [])
    × (length (run cancelled late).accepted ≤ 2)
    × IsGivenUp
        (step (run cancelled late) (accept_returns (err (sentinel eof))))
        (run (run cancelled late) (accept_returns (err (sentinel eof)) ∷ gives_up ∷ checks ∷ []))
run-returned_example = run-returned cancelled late (err (sentinel eof)) refl

-- The pending `AcceptStream` returns a stream: it is closed.
run-returned_at_stream :
    ((run cancelled []).served ≡ 5 ∷ [])
    × (length (run cancelled []).accepted ≤ 2)
    × IsGivenUp
        (step (run cancelled []) (accept_returns (ok 6)))
        (run (run cancelled []) (accept_returns (ok 6) ∷ gives_up ∷ checks ∷ []))
run-returned_at_stream = run-returned cancelled [] (ok 6) refl

abbrev turn : Option ℕ → Turn
turn snapshot = record { cancelled = none; snapshot = snapshot; woken = none }

abbrev last_turn : Turn
last_turn = record { cancelled = some (sentinel canceled); snapshot = some 3; woken = none }

-- Link 1 is seen twice, and again after nothing; link 2 follows.
abbrev turns : List Turn
turns = turn none ∷ turn (some 1) ∷ turn (some 1) ∷ turn none ∷ turn (some 1) ∷ turn (some 2) ∷ []

run-cancelled_example :
    Follows none turns waits (Links.run none turns)
    × Follows none turns (fails (sentinel canceled)) (Links.run none (turns ++ last_turn ∷ []))
run-cancelled_example =
    run-cancelled turns [] last_turn (sentinel canceled)
      (
        (refl, refl),
        ((refl, refl), ((refl, refl), ((refl, refl), ((refl, refl), ((refl, refl), tt))))),
      )
      refl

turns-run :
    Links.run none (turns ++ last_turn ∷ [])
    ≡ record { result = fails (sentinel canceled); links = 1 ∷ 2 ∷ []; sleeps = 4 }
unfolding Links.run
turns-run = refl
