-- ===== src/Relay/Bridge.antt =====
-- internal/relay/bridge.go: the bookkeeping of the stream pairs. Its mutex makes each change of
-- `active` and `conns` one step. The half-closes while a pair runs are in Stream/Duplex.
pub mod Accounts
pub mod Tests
use mathlib.Core.List.{filter}
use mhp.Prelude.{
  get_elem?, erase_idx, ℕ, zero, suc, ◌+◌, ◌-◌, Bool, true, false, not, leb, ◌==◌, ◌&&◌, Option,
  none, some, List, [], ◌∷◌, if◌then◌else◌,
}
use mhp.Errors.{Result, ok, err}
use mhp.Config.{mode_exit}
use mhp.Relay.Registry.{Registry, current}

abbrev pub max_streams : ℕ
max_streams = 256

-- A `*yamux.Stream`: the number of its session and its `StreamID` there.
pub record Stream : Type 0 where
  pub session : ℕ
  pub id : ℕ

pub record Pair : Type 0 where
  pub proxy : Stream
  pub exit : Stream

pub record Bridge : Type 0 where
  pub active : List ℕ
  pub conns : ℕ
  -- the pairs whose goroutine runs, and the streams that were closed, newest first
  pub live : List Pair
  pub closed : List Stream

unfoldable pub new_bridge : Bridge
new_bridge = record { active = []; conns = 0; live = []; closed = [] }

-- `delete(b.active, id)`.
unfoldable pub delete : ℕ → List ℕ → List ℕ
delete id [] = []
delete id (k ∷ ks) = let rest = delete id ks in if k == id then rest else k ∷ rest

-- `b.active[id] = struct{}{}`.
unfoldable pub insert : ℕ → List ℕ → List ℕ
unfolding delete
insert id ks = id ∷ delete id ks

abbrev pub close : Stream → Bridge → Bridge
close s b = record b { closed = s ∷ b.closed }

unfoldable pub launch : Bridge → Pair → Bridge
unfolding insert
launch b p =
    if leb max_streams b.conns
    then close p.exit (close p.proxy b)
    else record b { active = insert p.proxy.id b.active; conns = b.conns + 1; live = p ∷ b.live }

unfoldable pub track : Bridge → ℕ → Bridge
unfolding delete
track b id = record b { active = delete id b.active; conns = b.conns - 1 }

abbrev pub pair_up : Bridge → Stream → ℕ → Result ℕ → Bridge
pair_up b proxy session (err e) = close proxy b
pair_up b proxy session (ok id) =
    launch b (record { proxy = proxy; exit = record { session = session; id = id } })

abbrev pub route : Bridge → Stream → Option (ℕ × ℕ) → (ℕ → Result ℕ) → Bridge
route b proxy none open_stream = close proxy b
route b proxy (some (session, gen)) open_stream = pair_up b proxy session (open_stream session)

-- One turn of the loop of `ServeProxy`: a stream that was accepted, with the registry of that moment
-- and the answer of `OpenStream` in each session.
unfoldable pub serve_proxy : Bridge → Registry → Stream → (ℕ → Result ℕ) → Bridge
unfolding launch
serve_proxy b reg proxy open_stream = route b proxy (current reg mode_exit) open_stream

-- One turn of the loop of `ServeExit`.
unfoldable pub serve_exit : Bridge → Stream → Bridge
serve_exit b s = close s b

abbrev pub finish : Bridge → ℕ → Option Pair → Bridge
finish b n none = b
finish b n (some p) =
    track (close p.exit (close p.proxy (record b { live = erase_idx b.live n }))) p.proxy.id

-- The goroutine of the n-th pair ends: `Duplex.Run` has closed both streams, and `track` runs.
unfoldable pub pair_ends : Bridge → ℕ → Bridge
unfolding track
pair_ends b n = finish b n (get_elem? b.live n)

pub data Event : Type 0 where
  accepts : Registry → Stream → (ℕ → Result ℕ) → Event
  reverses : Stream → Event
  ends : ℕ → Event

unfoldable pub step : Bridge → Event → Bridge
unfolding serve_proxy serve_exit pair_ends
step b (accepts reg proxy open_stream) = serve_proxy b reg proxy open_stream
step b (reverses s) = serve_exit b s
step b (ends n) = pair_ends b n

-- A history of the streams that sessions of either side deliver, and of the pairs that end.
unfoldable pub run : Bridge → List Event → Bridge
run b [] = b
run b (event ∷ events) = run (step b event) events
