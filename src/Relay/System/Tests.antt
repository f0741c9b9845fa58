-- ===== src/Relay/System/Tests.antt =====
-- The relay's serve loops (internal/relay) for two clients that authenticate.
use mhp.Prelude.{◌≡◌, refl, none, some, [], ◌∷◌, List, All, bytes_eq, codes}
use mhp.Errors.{ok}
use mhp.Config.{mode_exit, mode_proxy, mode_eq}
use mhp.Transport.Timing.{default_timing}
use mhp.Transport.Conn.{read_full, write}
use mhp.Transport.Framing.{read_json, write_json, read_frame, write_frame, put_uint32, be_uint32}
use mhp.Transport.Records.{validate_hello, new_session_id, hex_digit}
use mhp.Transport.Tls.{listen_tls}
use mhp.Transport.Handshake.{
  Verifier, ServerEnv, Arrival, connects, handshake, converse, vet, accept, verify,
}
use mhp.Transport.Agreement.Tests.{hellos, responses, relay_env, conn, hello_frame}
use mhp.Relay.Registry.{new_registry, register, current}
use mhp.Relay.Bridge.{new_bridge, launch, serve_proxy}
use mhp.Relay.Service.{Client, new_service, accepts, begins}
use mhp.Relay.Service
use mhp.Relay.Service.Accepting.{accept_loop}
use mhp.Relay.Service.Vetted.{accepted}
use mhp.Relay.System.{new_system, serve, Event, manages, streams, step, run}
use mhp.Relay.System.Authentic.{managed, BothAdmitted, live-Admitted}

abbrev verifier : Verifier
verifier mode_exit = some (codes "pass")
verifier mode_proxy = some (codes "pass")
verifier role = none

abbrev proxy_env : ServerEnv
proxy_env = record relay_env { server = ok 8 }

-- The proxy comes first.
abbrev arrivals : List Arrival
arrivals =
    connects proxy_env (conn (0 ∷ 0 ∷ 0 ∷ 6 ∷ 1 ∷ 2 ∷ codes "pass"))
    ∷ connects relay_env (conn (hello_frame (codes "pass")))
    ∷ []

abbrev proxy : Client
proxy = record { role = mode_proxy; mux = 8 }

abbrev exit : Client
exit = record { role = mode_exit; mux = 9 }

-- Both register, and the proxy opens stream 1, which is paired with stream 2 of the exit.
abbrev events : List Event
events =
    manages (accepts proxy)
    ∷ manages (accepts exit)
    ∷ manages (begins 0)
    ∷ manages (begins 0)
    ∷ streams 0 1 (λ session. ok 2)
    ∷ []

events-run :
    (run new_system events).bridge.live
    ≡ record { proxy = record { session = 8; id = 1 }; exit = record { session = 9; id = 2 } } ∷ []
unfolding run step serve serve_proxy new_system new_service new_bridge new_registry register current
    mode_eq Service.step launch
events-run = refl

both_accepted :
    accepted (managed events) ≡ accept_loop hellos responses default_timing verifier arrivals
unfolding accept_loop handshake converse vet accept listen_tls write_json read_json write_frame
    read_frame write read_full put_uint32 be_uint32 verify bytes_eq validate_hello new_session_id
    hex_digit
both_accepted = refl

live-Admitted_example :
    All
      (BothAdmitted hellos responses default_timing verifier arrivals)
      (run new_system events).bridge.live
live-Admitted_example =
    live-Admitted hellos responses default_timing verifier arrivals events both_accepted
