-- ===== src/Relay/System.antt =====
-- internal/relay/service.go and bridge.go together: the serve loops that the service runs for its
-- sessions, over the bridge and the registry that they share.
pub mod Authentic
pub mod Tests
use mhp.Prelude.{ℕ, Option, none, some, List, [], ◌∷◌, get_elem?}
use mhp.Errors.{Result}
use mhp.Config.{Mode, mode_proxy, mode_exit}
use mhp.Relay.Registry.{Registry}
use mhp.Relay.Bridge.{Stream, Bridge, new_bridge, serve_proxy, serve_exit, pair_ends}
use mhp.Relay.Service.{Worker, Service, new_service}
use mhp.Relay.Service

pub record System : Type 0 where
  pub service : Service
  pub bridge : Bridge

unfoldable pub new_system : System
new_system = record { service = new_service; bridge = new_bridge }

-- The serve loop of a role, for a stream that its session accepted; the registry and the answers of
-- `OpenStream` are those of that moment.
abbrev pub serve_role : Mode → Bridge → Registry → Stream → (ℕ → Result ℕ) → Bridge
serve_role mode_proxy b reg s open_stream = serve_proxy b reg s open_stream
serve_role mode_exit b reg s open_stream = serve_exit b s
serve_role role b reg s open_stream = b

abbrev pub serve_worker : System → Option Worker → ℕ → (ℕ → Result ℕ) → System
serve_worker s none id open_stream = s
serve_worker s (some w) id open_stream = record s {
  bridge =
      serve_role w.client.role s.bridge s.service.registry
        (record { session = w.client.mux; id = id }) open_stream;
}

-- The session of the n-th worker accepts a stream with this id.
unfoldable pub serve : System → ℕ → ℕ → (ℕ → Result ℕ) → System
serve s n id open_stream = serve_worker s (get_elem? s.service.workers n) id open_stream

pub data Event : Type 0 where
  manages : Service.Event → Event
  streams : ℕ → ℕ → (ℕ → Result ℕ) → Event
  ends : ℕ → Event

unfoldable pub step : System → Event → System
unfolding serve
step s (manages event) = record s { service = Service.step s.service event }
step s (streams n id open_stream) = serve s n id open_stream
step s (ends n) = record s { bridge = pair_ends s.bridge n }

unfoldable pub run : System → List Event → System
run s [] = s
run s (event ∷ events) = run (step s event) events
