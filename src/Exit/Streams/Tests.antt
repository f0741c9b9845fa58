-- ===== src/Exit/Streams/Tests.antt =====
-- Two streams of a session of the exit-node.
use mhp.Prelude.{◌≡◌, refl, none, List, [], ◌∷◌}
use mhp.Errors.{ok}
use mhp.Exit.Broker.{
  checks, hands_over, gives_up, session_done, accept_returns, new_serving, advance,
}
use mhp.Exit.Broker
use mhp.Exit.Handler.{arms, serves, session_ends, sees_done, sees_stop, joins, new_stream}
use mhp.Exit.Handler
use mhp.Exit.Streams.{Event, brokers, handles, new_session, serve_conn, step, run}
use mhp.Exit.Streams.Handled.{handled, IsHandled, run-new_session-IsHandled}

-- The first stream is served to its end; the session ends while the acceptor has the second.
abbrev two_streams : List Event
two_streams =
    brokers checks
    ∷ brokers (accept_returns (ok 5))
    ∷ brokers hands_over
    ∷ handles 0 (arms none)
    ∷ brokers checks
    ∷ brokers (accept_returns (ok 7))
    ∷ brokers session_done
    ∷ handles 0 session_ends
    ∷ brokers gives_up
    ∷ handles 0 sees_done
    ∷ handles 0 (serves none)
    ∷ handles 0 joins
    ∷ []

two_streams-handled :
    (handled (run new_session two_streams).requests ≡ 5 ∷ [])
    × ((run new_session two_streams).serving.closed ≡ 7 ∷ [])
unfolding run step new_session serve_conn new_serving Broker.step advance Handler.step
    Handler.advance new_stream
two_streams-handled = (refl, refl)

run-new_session-IsHandled_example : IsHandled (run new_session two_streams)
run-new_session-IsHandled_example = run-new_session-IsHandled two_streams
