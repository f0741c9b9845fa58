-- ===== src/Transport/Session/Tests.antt =====
-- The end of a session (internal/transport/session.go) at concrete events.
use mhp.Prelude.{◌≡◌, refl, true, false, none, some, List, [], ◌∷◌}
use mhp.Errors.{sentinel, mark, net_closed, close_failed}
use mhp.Transport.Session.{
  new_session, close, mirror_close, done, Event, closes, mux_ends, mirrors, step, run,
}
use mhp.Transport.Session.Ends.{IsSound, run-new_session}

-- Closed twice, with the mirror in between; the mux fails to close.
abbrev twice : List Event
twice = closes (some (sentinel net_closed)) ∷ mirrors ∷ closes none ∷ []

twice-run : run new_session twice ≡ record {
  once = true;
  closes = 1;
  mux_closed = true;
  mirror = false;
  results = none ∷ some (mark close_failed (sentinel net_closed)) ∷ [];
}
unfolding run step close mirror_close new_session
twice-run = refl

run-new_session_at_input :
    IsSound (run new_session twice)
    × (done (step (step (run new_session twice) mux_ends) mirrors) ≡ true)
run-new_session_at_input = run-new_session twice
