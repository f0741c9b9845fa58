-- ===== src/Relay/Service.antt =====
-- internal/relay/service.go: the lifecycle of the relay's sessions, as steps of its goroutines. Of a
-- `*transport.Session` it keeps the role and the mux; each handshake returns a new one, so the map
-- `sessions` is the list of its keys.
pub mod Spec
pub mod Tied
pub mod Refinement
pub mod Shutdown
pub mod Accepting
pub mod Vetted
pub mod Tests
use mhp.Prelude.{
  ℕ, Bool, true, false, ◌==◌, Option, none, some, List, [], ◌∷◌, ◌++◌, get_elem?, erase_idx, map,
  if◌then◌else◌,
}
use mhp.Config.{Mode, mode_relay, mode_exit, mode_proxy}
use mhp.Relay.Registry.{Registry, new_registry, register, vacate}

pub record Client : Type 0 where
  pub role : Mode
  pub mux : ℕ

-- A goroutine in `serveSession` behind its `Register`.
pub record Worker : Type 0 where
  pub client : Client
  pub gen : ℕ

pub record Service : Type 0 where
  pub registry : Registry
  pub sessions : List ℕ
  -- goroutines before `Register`, between it and `Vacate`, and before the deferred `delete`
  pub pending : List Client
  pub workers : List Worker
  pub leaving : List Client
  -- the sessions that were closed, newest first
  pub closed : List ℕ

unfoldable pub new_service : Service
new_service = record {
  registry = new_registry;
  sessions = [];
  pending = [];
  workers = [];
  leaving = [];
  closed = [];
}

-- The accept loop gets a session, calls `register`, and starts the goroutine.
unfoldable pub accept : Service → Client → Service
accept s c = record s { sessions = c.mux ∷ s.sessions; pending = c ∷ s.pending }

abbrev pub close_previous : Option ℕ → List ℕ → List ℕ
close_previous none closed = closed
close_previous (some prev) closed = prev ∷ closed

abbrev pub begin_client : Service → ℕ → Option Client → Service
begin_client s n none = s
begin_client s n (some c) =
    let ((prev, gen), registry) = register s.registry c.role (some c.mux) in
    record s {
      registry = registry;
      pending = erase_idx s.pending n;
      workers = record { client = c; gen = gen } ∷ s.workers;
      closed = close_previous prev s.closed;
    }

-- The n-th pending goroutine runs `Register` and closes the previous session.
unfoldable pub begin : Service → ℕ → Service
begin s n = begin_client s n (get_elem? s.pending n)

-- Roles without a serve loop return before `session.Close`.
abbrev pub close_served : Client → List ℕ → List ℕ
close_served c closed = elim c.role [
  | mode_proxy ↦ c.mux ∷ closed
  | mode_exit ↦ c.mux ∷ closed
  | _ ↦ closed
]

abbrev pub finish_worker : Service → ℕ → Option Worker → Service
finish_worker s n none = s
finish_worker s n (some w) = record s {
  registry = vacate s.registry w.client.role w.gen;
  workers = erase_idx s.workers n;
  leaving = w.client ∷ s.leaving;
  closed = close_served w.client s.closed;
}

-- The serve loop of the n-th worker returns: `session.Close`, and the deferred `Vacate`.
unfoldable pub finish : Service → ℕ → Service
finish s n = finish_worker s n (get_elem? s.workers n)

-- `delete(s.sessions, session)`.
unfoldable pub delete : ℕ → List ℕ → List ℕ
delete x [] = []
delete x (y ∷ ys) = let rest = delete x ys in if y == x then ys else y ∷ rest

abbrev pub leave_client : Service → ℕ → Option Client → Service
leave_client s n none = s
leave_client s n (some c) = record s {
  sessions = delete c.mux s.sessions;
  leaving = erase_idx s.leaving n;
}

unfoldable pub leave : Service → ℕ → Service
unfolding delete
leave s n = leave_client s n (get_elem? s.leaving n)

-- The shutdown path of `Run`, once the accept loop has returned.
unfoldable pub close_all : Service → Service
close_all s = record s { closed = s.sessions ++ s.closed }

pub data Event : Type 0 where
  accepts : Client → Event
  begins : ℕ → Event
  finishes : ℕ → Event
  leaves : ℕ → Event
  shuts_down : Event

unfoldable pub step : Service → Event → Service
unfolding accept begin finish leave close_all
step s (accepts c) = accept s c
step s (begins n) = begin s n
step s (finishes n) = finish s n
step s (leaves n) = leave s n
step s shuts_down = close_all s

unfoldable pub run : Service → List Event → Service
run s [] = s
run s (event ∷ events) = run (step s event) events
