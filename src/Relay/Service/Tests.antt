-- ===== src/Relay/Service/Tests.antt =====
-- The sessions of the relay at concrete inputs.
use mhp.Prelude.{ap, sym, codes, times, ℕ, ◌<◌, ◌≡◌, refl, some, List, [], ◌∷◌, ◌++◌, arith}
use mhp.Config.{mode_exit, mode_eq}
use mhp.Transport.Timing.{default_timing}
use mhp.Transport.Handshake.{Session, Arrival, connects}
use mhp.Transport.Agreement.Tests.{
  hellos, responses, relay_env, verifier, conn, hello_frame, exit_session, exit_served,
}
use mhp.Relay.Service.Accepting.{client_of, kept, accept_loop}
use mhp.Relay.Service.Vetted.{Welcomed, current-Authentic}
use mhp.Relay.Service.Vetted
use mhp.Relay.Registry.{current, register, vacate, new_registry}
use mhp.Relay.Service.{
  Client, new_service, Event, accepts, begins, finishes, leaves, shuts_down, run, step,
}
use mhp.Relay.Service.Spec.{session_of, spec_run, empty_spec}
use mhp.Relay.Service.Refinement.{current-run}
use mhp.Relay.Service.Shutdown.{shuts_down_closes}

abbrev exit_client : ℕ → Client
exit_client mux = record { role = mode_exit; mux = mux }

-- The exit reconnects: the second session replaces the first one, which ends only afterwards.
abbrev reconnect : List Event
reconnect =
    accepts (exit_client 7)
    ∷ begins 0
    ∷ accepts (exit_client 8)
    ∷ begins 0
    ∷ finishes 1
    ∷ leaves 0
    ∷ []

still_current : session_of (current (run new_service reconnect).registry mode_exit) ≡ some 8
unfolding run step new_service new_registry register vacate current mode_eq
still_current = refl

replaced_closed : (run new_service reconnect).closed ≡ 7 ∷ 7 ∷ []
unfolding run step new_service new_registry register vacate mode_eq
replaced_closed = refl

current-run_example :
    session_of (current (run new_service reconnect).registry mode_exit)
    ≡ session_of ((spec_run empty_spec reconnect).holder mode_exit)
current-run_example = current-run reconnect mode_exit (omega arith)

-- A session that was accepted, and registers only after the shutdown.
abbrev accepted : List Event
accepted = accepts (exit_client 7) ∷ begins 0 ∷ accepts (exit_client 9) ∷ []

shuts_down_closes_example :
    0 < times 9 (run new_service (accepted ++ shuts_down ∷ begins 0 ∷ [])).closed
unfolding run step new_service
shuts_down_closes_example = shuts_down_closes accepted (begins 0 ∷ []) 9 (tt, tt) (omega arith)

-- One client authenticates as an exit and registers.
abbrev one_arrival : List Arrival
one_arrival = connects relay_env (conn (hello_frame (codes "pass"))) ∷ []

abbrev registered : List Event
registered = accepts (client_of exit_session) ∷ begins 0 ∷ []

one_accepted :
    Vetted.accepted registered ≡ accept_loop hellos responses default_timing verifier one_arrival
unfolding accept_loop
one_accepted = ap (λ p. kept p []) (sym exit_served)

registered-current : current (run new_service registered).registry mode_exit ≡ some (9, 1)
unfolding run step new_service new_registry register current mode_eq
registered-current = refl

current-Authentic_at_input :
    (s : Session) × Welcomed hellos responses default_timing verifier one_arrival s
    × (s.role ≡ mode_exit)
    × (s.mux ≡ 9)
current-Authentic_at_input =
    current-Authentic hellos responses default_timing verifier one_arrival registered mode_exit 9 1
      one_accepted registered-current
