-- ===== src/Relay/Service/Accepting.antt =====
-- internal/relay/service.go: the accept loop of `Run` over internal/transport/handshake.go's, whose
-- failed handshakes it does not see.
use mhp.Prelude.{List, [], ◌∷◌}
use mhp.Errors.{Result, ok, err}
use mhp.Transport.Conn.{Conn}
use mhp.Transport.Framing.{Codec}
use mhp.Transport.Records.{Hello, Response}
use mhp.Transport.Timing.{Timing}
use mhp.Transport.Handshake.{Verifier, Session, Arrival, connects, accept_error, handshake}
use mhp.Relay.Service.{Client}

abbrev pub client_of : Session → Client
client_of s = record { role = s.role; mux = s.mux }

abbrev pub kept : Result Session × Conn → List Client → List Client
kept (ok s, c) rest = client_of s ∷ rest
kept (err e, c) rest = rest

-- The clients that the loop starts goroutines for, in order.
unfoldable pub accept_loop :
    Codec Hello → Codec Response → Timing → Verifier → List Arrival → List Client
accept_loop hellos responses timing v [] = []
accept_loop hellos responses timing v (accept_error e cancelled ∷ arrivals) = []
accept_loop hellos responses timing v (connects env c ∷ arrivals) =
    kept (handshake hellos responses env timing v c)
      (accept_loop hellos responses timing v arrivals)
