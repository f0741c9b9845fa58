-- ===== src/Transport/Session/Ends.antt =====
-- When a session is done (internal/transport/session.go).
use mhp.Prelude.{◌≡◌, refl, true, not, ◌&&◌, ◌||◌, List, [], ◌∷◌, arith, if◌then◌else◌}
use mhp.Transport.Session.{
  Lifetime, new_session, close, mirror_close, done, Event, mux_ends, mirrors, step, run,
}

-- The channel is closed once, when the session is done, and never before the mux is.
pub record IsSound (s : Lifetime) : Type 0 where
  pub single : s.closes ≡ (if s.once then 1 else 0)
  pub mirrored : (s.once || s.mirror) && (s.mux_closed || not s.once) ≡ true

step-IsSound : (s : Lifetime) (event : Event) → IsSound s → IsSound (step s event)
unfolding step close mirror_close
step-IsSound s event i = record {
  single = ground (arith, i.single);
  mirrored = ground (arith, i.mirrored);
}

run-IsSound : (s : Lifetime) (events : List Event) → IsSound s → IsSound (run s events)
unfolding run
run-IsSound s [] i = i
run-IsSound s (event ∷ events) i = run-IsSound (step s event) events (step-IsSound s event i)

mirrors-done : (s : Lifetime) → IsSound s → done (step (step s mux_ends) mirrors) ≡ true
unfolding step mirror_close
mirrors-done s i = ground (arith, i.mirrored)

-- However calls of `Close`, the end of the mux and the goroutine that mirrors it alternate: the
-- session's channel is closed once if the session is done and not at all otherwise, so that no
-- second close panics, and not before the mux is closed; and once the mux ends, the goroutine's next
-- step makes the session done.
pub run-new_session :
    (events : List Event)
    → IsSound (run new_session events)
      × (done (step (step (run new_session events) mux_ends) mirrors) ≡ true)
unfolding new_session
run-new_session events =
    let sound = run-IsSound new_session events (record { single = refl; mirrored = refl }) in
    (sound, mirrors-done (run new_session events) sound)
