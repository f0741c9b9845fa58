-- ===== src/Relay/Bridge/Accounts.antt =====
-- What happens to every stream (internal/relay/bridge.go).
use mhp.Prelude.{
  ℕ, zero, suc, ◌+◌, ◌≤◌, ◌<◌, ◌≡◌, refl, ◌⊎◌, inl, inr, Bool, leb, ◌==◌, ◌&&◌, Bool-cases, Option,
  none, some, List, [], get_elem?, erase_idx, ◌∷◌, ◌++◌, length, arith, if◌then◌else◌,
}
use mhp.Errors.{Result, ok, err}
use mhp.Config.{mode_exit}
use mhp.Relay.Registry.{Registry, current}
use mhp.Relay.Bridge.{
  max_streams, Stream, Pair, Bridge, new_bridge, launch, track, serve_proxy, serve_exit, pair_ends,
  pair_up, route, finish, Event, accepts, reverses, ends, step, run,
}

-- The streams of the pairs that run.
abbrev pub streams : List Pair → List Stream
streams [] = []
streams (p ∷ ps) = p.exit ∷ p.proxy ∷ streams ps

-- The streams that an event takes over in a state of the bridge: the accepted one, and the one that
-- is opened for it.
abbrev answered : ℕ → Result ℕ → List Stream
answered session (ok id) = record { session = session; id = id } ∷ []
answered session (err e) = []

abbrev opened : Option (ℕ × ℕ) → (ℕ → Result ℕ) → List Stream
opened none open_stream = []
opened (some (session, gen)) open_stream = answered session (open_stream session)

abbrev pub taken : Event → List Stream
taken (accepts reg proxy open_stream) = opened (current reg mode_exit) open_stream ++ (proxy ∷ [])
taken (reverses s) = s ∷ []
taken (ends n) = []

abbrev pub all_taken : List Event → List Stream
all_taken [] = []
all_taken (event ∷ events) = taken event ++ all_taken events

abbrev pub same : Stream → Stream → Bool
same s t = (s.session == t.session) && (s.id == t.id)

-- How often a stream occurs.
abbrev pub times : Stream → List Stream → ℕ
times s [] = 0
times s (t ∷ ts) = let rest = times s ts in if same t s then suc rest else rest

abbrev pub held : Stream → Bridge → ℕ
held s b = times s b.closed + times s (streams b.live)

times-append : (s : Stream) (xs ys : List Stream) → times s (xs ++ ys) ≡ times s xs + times s ys
times-append s [] ys = omega arith
times-append s (x ∷ xs) ys = ground (arith, times-append s xs ys)

-- The count of the pairs, and its limit.
pub record IsCounted (b : Bridge) : Type 0 where
  pub count : b.conns ≡ length b.live
  pub limit : b.conns ≤ max_streams

-- The pair that stands at a place, and the others.
pick :
    (s : Stream) (n : ℕ) (ps : List Pair) (p : Pair)
    → get_elem? ps n ≡ some p
    → (length ps ≡ suc (length (erase_idx ps n)))
      × (times s (streams ps)
          ≡ times s (p.exit ∷ p.proxy ∷ []) + times s (streams (erase_idx ps n)))
pick s n [] p h = cc
pick s zero (q ∷ ps) p h = ground arith
pick s (suc n) (q ∷ ps) p h = ground (arith, pick s n ps p h)

-- All that a bridge took over is closed and no pair starts, or it runs as a new pair.
abbrev pub Handled : Stream → List Stream → Bridge → Bridge → Type 0
Handled proxy streams_taken b c =
    ((c.closed ≡ streams_taken ++ b.closed) × (c.live ≡ b.live) × (c.conns ≡ b.conns))
    ⊎ ((p : Pair) × (p.proxy ≡ proxy)
        × (streams_taken ≡ p.exit ∷ p.proxy ∷ [])
        × (c.live ≡ p ∷ b.live)
        × (c.closed ≡ b.closed)
        × (b.conns < max_streams)
        × (c.conns ≡ b.conns + 1))

launch-Handled : (b : Bridge) (p : Pair) → Handled p.proxy (p.exit ∷ p.proxy ∷ []) b (launch b p)
unfolding launch
launch-Handled b p = elim (Bool-cases (leb max_streams b.conns)) [
  | inl e ↦ rw (e, launch) (inl (refl, refl, refl))
  | inr e ↦ rw (e, launch) (inr (p, refl, refl, refl, refl, ground arith, refl))
]

pair_up-Handled :
    (b : Bridge) (proxy : Stream) (session : ℕ) (answer : Result ℕ)
    → Handled proxy (answered session answer ++ (proxy ∷ [])) b (pair_up b proxy session answer)
pair_up-Handled b proxy session (err e) = inl (refl, refl, refl)
pair_up-Handled b proxy session (ok id) =
    launch-Handled b (record { proxy = proxy; exit = record { session = session; id = id } })

route-Handled :
    (b : Bridge) (proxy : Stream) (found : Option (ℕ × ℕ)) (open_stream : ℕ → Result ℕ)
    → Handled proxy (opened found open_stream ++ (proxy ∷ [])) b (route b proxy found open_stream)
route-Handled b proxy none open_stream = inl (refl, refl, refl)
route-Handled b proxy (some (session, gen)) open_stream =
    pair_up-Handled b proxy session (open_stream session)

-- Of an accepted stream, either all that the bridge took over is closed at once and no pair starts,
-- or there is room for it and it runs as a pair with the stream that was opened for it.
pub serve_proxy-Handled :
    (b : Bridge) (reg : Registry) (proxy : Stream) (open_stream : ℕ → Result ℕ)
    → Handled proxy (taken (accepts reg proxy open_stream)) b (serve_proxy b reg proxy open_stream)
unfolding serve_proxy
serve_proxy-Handled b reg proxy open_stream =
    route-Handled b proxy (current reg mode_exit) open_stream

Handled-held :
    (s proxy : Stream) (streams_taken : List Stream) (b c : Bridge)
    → Handled proxy streams_taken b c
    → held s c ≡ times s streams_taken + held s b
Handled-held s proxy streams_taken b c (inl (closed, live, count)) =
    rw (closed, live) (omega (arith, times-append s streams_taken b.closed))
Handled-held s proxy streams_taken b c (inr (p, same_proxy, all, live, closed, room, count)) =
    rw (all, live, closed) (ground arith)

finish-held :
    (s : Stream) (b : Bridge) (n : ℕ) (found : Option Pair)
    → get_elem? b.live n ≡ found
    → held s (finish b n found) ≡ held s b
unfolding track
finish-held s b n none h = refl
finish-held s b n (some p) h = ground (arith, pick s n b.live p h)

step-held :
    (s : Stream) (b : Bridge) (event : Event)
    → held s (step b event) ≡ times s (taken event) + held s b
unfolding step serve_exit pair_ends
step-held s b (accepts reg proxy open_stream) =
    Handled-held s proxy (taken (accepts reg proxy open_stream)) b
      (serve_proxy b reg proxy open_stream) (serve_proxy-Handled b reg proxy open_stream)
step-held s b (reverses t) = ground arith
step-held s b (ends n) = omega (arith, finish-held s b n (get_elem? b.live n) refl)

Handled-IsCounted :
    (proxy : Stream) (streams_taken : List Stream) (b c : Bridge)
    → Handled proxy streams_taken b c
    → IsCounted b
    → IsCounted c
Handled-IsCounted proxy streams_taken b c (inl (closed, live, count)) h = record {
  count = cc (h.count);
  limit = omega (arith, h.limit);
}
Handled-IsCounted proxy streams_taken b c (inr (p, same_proxy, all, live, closed, room, count)) h =
    record { count = rw live (omega (arith, h.count)); limit = omega (arith, h.limit) }

finish-IsCounted :
    (b : Bridge) (n : ℕ) (found : Option Pair)
    → get_elem? b.live n ≡ found
    → IsCounted b
    → IsCounted (finish b n found)
unfolding track
finish-IsCounted b n none h counted = counted
finish-IsCounted b n (some p) h counted =
    let one = (pick p.proxy n b.live p h).0 in
    record { count = omega (arith, counted.count, one); limit = omega (arith, counted.limit) }

step-IsCounted : (b : Bridge) (event : Event) → IsCounted b → IsCounted (step b event)
unfolding step serve_exit pair_ends
step-IsCounted b (accepts reg proxy open_stream) h =
    Handled-IsCounted proxy (taken (accepts reg proxy open_stream)) b
      (serve_proxy b reg proxy open_stream) (serve_proxy-Handled b reg proxy open_stream) h
step-IsCounted b (reverses t) h = record { count = h.count; limit = h.limit }
step-IsCounted b (ends n) h = finish-IsCounted b n (get_elem? b.live n) refl h

run-IsCounted : (b : Bridge) (events : List Event) → IsCounted b → IsCounted (run b events)
unfolding run
run-IsCounted b [] h = h
run-IsCounted b (event ∷ events) h = run-IsCounted (step b event) events (step-IsCounted b event h)

-- After any history of a bridge, `conns` is the number of the pairs that run, and at most 256.
pub run-new_bridge-IsCounted : (events : List Event) → IsCounted (run new_bridge events)
unfolding new_bridge
run-new_bridge-IsCounted events =
    run-IsCounted new_bridge events (record { count = refl; limit = omega arith })

run-held :
    (s : Stream) (b : Bridge) (events : List Event)
    → held s (run b events) ≡ times s (all_taken events) + held s b
unfolding run
run-held s b [] = omega arith
run-held s b (event ∷ events) = omega (
  arith,
  run-held s (step b event) events,
  step-held s b event,
  times-append s (taken event) (all_taken events),
)

-- Every stream that a bridge took over, in any history of its sessions and pairs, is accounted for:
-- it was closed or belongs to a pair that still runs, as often as it was taken over.
pub run-new_bridge-held :
    (events : List Event) (s : Stream) → held s (run new_bridge events) ≡ times s (all_taken events)
unfolding new_bridge
run-new_bridge-held events s = omega (arith, run-held s new_bridge events)
