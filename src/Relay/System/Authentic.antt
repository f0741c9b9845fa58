-- ===== src/Relay/System/Authentic.antt =====
-- Between whom the relay carries data (internal/relay, over internal/transport/handshake.go).
use mathlib.Core.Path.{subst}
use mhp.Prelude.{
  ℕ, ◌≡◌, refl, sym, ap, ◌∙◌, inl, inr, Bool-cases, leb, Option, none, some, List, [], ◌∷◌,
  get_elem?, All, All-get_elem?, All-erase_idx,
}
use mhp.Errors.{Result, ok, err}
use mhp.Config.{Mode, mode_relay, mode_exit, mode_proxy}
use mhp.Transport.Framing.{Codec}
use mhp.Transport.Records.{Hello, Response}
use mhp.Transport.Timing.{Timing}
use mhp.Transport.Handshake.{Verifier, Session, Arrival}
use mhp.Relay.Registry.{Registry, current}
use mhp.Relay.Bridge.{
  max_streams, Stream, Pair, Bridge, new_bridge, launch, pair_up, route, serve_proxy, serve_exit,
  finish, pair_ends, track,
}
use mhp.Relay.Service.{Client, Worker, new_service}
use mhp.Relay.Service
use mhp.Relay.Service.Accepting.{accept_loop}
use mhp.Relay.Service.Vetted.{
  Shows, IsVetted, Welcomed, Vetted, accepted, accepted-split, step-IsVetted, new-IsVetted,
  current-mux_of, accept_loop-Vetted,
}
use mhp.Relay.System.{
  System, new_system, serve_role, serve_worker, serve, Event, manages, streams, ends, step, run,
}

-- What happens to the service.
abbrev pub managed : List Event → List Service.Event
managed [] = []
managed (manages event ∷ events) = event ∷ managed events
managed (event ∷ events) = managed events

-- The sessions of both ends are those of clients with the property, in their roles.
record Joins (P : Client → Type 0) (p : Pair) : Type 0 where
  proxy : Shows P mode_proxy p.proxy.session
  exit : Shows P mode_exit p.exit.session

record IsJoined (P : Client → Type 0) (s : System) : Type 0 where
  clients : IsVetted P s.service
  pairs : All (Joins P) s.bridge.live

module _ (P : Client → Type 0) where
  launch-Joins :
      (b : Bridge) (p : Pair) → Joins P p → All (Joins P) b.live → All (Joins P) (launch b p).live
  unfolding launch
  launch-Joins b p j a = elim (Bool-cases (leb max_streams b.conns)) [
    | inl e ↦ rw (e, launch) a
    | inr e ↦ rw (e, launch) (j, a)
  ]

  pair_up-Joins :
      (b : Bridge) (s : Stream) (session : ℕ) (answer : Result ℕ)
      → Shows P mode_proxy s.session
      → Shows P mode_exit session
      → All (Joins P) b.live
      → All (Joins P) (pair_up b s session answer).live
  pair_up-Joins b s session (err e) p x a = a
  pair_up-Joins b s session (ok id) p x a =
      launch-Joins b (record { proxy = s; exit = record { session = session; id = id } })
        (record { proxy = p; exit = x }) a

  route-Joins :
      (b : Bridge) (s : Stream) (reg : Registry) (found : Option (ℕ × ℕ))
      (open_stream : ℕ → Result ℕ)
      → current reg mode_exit ≡ found
      → Shows P mode_proxy s.session
      → ((x gen : ℕ) → current reg mode_exit ≡ some (x, gen) → Shows P mode_exit x)
      → All (Joins P) b.live
      → All (Joins P) (route b s found open_stream).live
  route-Joins b s reg none open_stream h p x a = a
  route-Joins b s reg (some (session, gen)) open_stream h p x a =
      pair_up-Joins b s session (open_stream session) p (x session gen h) a

  -- The serve loop of a worker's role.
  serve_role-Joins :
      (b : Bridge) (reg : Registry) (w : Worker) (role : Mode) (id : ℕ) (open_stream : ℕ → Result ℕ)
      → w.client.role ≡ role
      → P w.client
      → ((x gen : ℕ) → current reg mode_exit ≡ some (x, gen) → Shows P mode_exit x)
      → All (Joins P) b.live
      → All
          (Joins P)
          (serve_role role b reg (record { session = w.client.mux; id = id }) open_stream).live
  unfolding serve_proxy serve_exit
  serve_role-Joins b reg w mode_proxy id open_stream r p x a =
      route-Joins b (record { session = w.client.mux; id = id }) reg (current reg mode_exit)
        open_stream refl (w.client, p, r, refl) x a
  serve_role-Joins b reg w mode_exit id open_stream r p x a = a
  serve_role-Joins b reg w mode_relay id open_stream r p x a = a
  serve_role-Joins b reg w (Mode.other t) id open_stream r p x a = a

  serve_worker-IsJoined :
      (s : System) (w : Option Worker) (n id : ℕ) (open_stream : ℕ → Result ℕ)
      → get_elem? s.service.workers n ≡ w
      → IsJoined P s
      → IsJoined P (serve_worker s w id open_stream)
  serve_worker-IsJoined s none n id open_stream h i = i
  serve_worker-IsJoined s (some w) n id open_stream h i = record {
    clients = i.clients;
    pairs =
        serve_role-Joins s.bridge s.service.registry w w.client.role id open_stream refl
          (All-get_elem? (λ v. P v.client) s.service.workers n w h i.clients.working)
          (λ x gen k.
            i.clients.shown mode_exit x (current-mux_of s.service.registry mode_exit x gen k))
          i.pairs;
  }

  finish-Joins :
      (b : Bridge) (n : ℕ) (p : Option Pair)
      → All (Joins P) b.live
      → All (Joins P) (finish b n p).live
  unfolding track
  finish-Joins b n none a = a
  finish-Joins b n (some p) a = All-erase_idx (Joins P) b.live n a

  run-IsJoined :
      (s : System) (events : List Event)
      → All P (accepted (managed events))
      → IsJoined P s
      → IsJoined P (run s events)
  unfolding run step serve pair_ends
  run-IsJoined s [] a i = i
  run-IsJoined s (manages event ∷ events) a i =
      let (first, rest) = accepted-split P event (managed events) a in
      run-IsJoined (record s { service = Service.step s.service event }) events rest
        (record { clients = step-IsVetted P s.service event first i.clients; pairs = i.pairs })
  run-IsJoined s (streams n id open_stream ∷ events) a i =
      run-IsJoined (serve s n id open_stream) events a
        (serve_worker-IsJoined s (get_elem? s.service.workers n) n id open_stream refl i)
  run-IsJoined s (ends n ∷ events) a i =
      run-IsJoined (record s { bridge = pair_ends s.bridge n }) events a
        (record {
          clients = i.clients;
          pairs = finish-Joins s.bridge n (get_elem? s.bridge.live n) i.pairs;
        })

module _ (hellos : Codec Hello) (responses : Codec Response) (timing : Timing) (v : Verifier)
    (arrivals : List Arrival) where
  -- The session came out of the handshake with one of the sockets that arrived, which accepted its
  -- client in this role.
  pub record Admitted (m : Mode) (x : ℕ) : Type 0 where
    pub session : Session
    pub welcomed : Welcomed hellos responses timing v arrivals session
    pub in_role : session.role ≡ m
    pub is_mux : session.mux ≡ x

  abbrev IsAccepted : Client → Type 0
  IsAccepted c = Vetted hellos responses timing v arrivals c

  shown-Admitted : (m : Mode) (x : ℕ) → Shows IsAccepted m x → Admitted m x
  shown-Admitted m x (c, (s, welcomed, at), role, mux) = record {
    session = s;
    welcomed = welcomed;
    in_role = ap (λ d. d.role) at ∙ role;
    is_mux = ap (λ d. d.mux) at ∙ mux;
  }

  abbrev pub BothAdmitted : Pair → Type 0
  BothAdmitted p = Admitted mode_proxy p.proxy.session × Admitted mode_exit p.exit.session

  joined-BothAdmitted : (ps : List Pair) → All (Joins IsAccepted) ps → All BothAdmitted ps
  joined-BothAdmitted [] a = tt
  joined-BothAdmitted (p ∷ ps) (j, a) = (
    (
      shown-Admitted mode_proxy p.proxy.session j.proxy,
      shown-Admitted mode_exit p.exit.session j.exit,
    ),
    joined-BothAdmitted ps a,
  )

  -- The relay carries data only between authenticated clients: whatever its goroutines have done, for
  -- the clients of its accept loop, every pair that runs has a stream of a session whose client was
  -- accepted as a proxy, and one of a session whose client was accepted as an exit-node. Each of the
  -- two came out of the handshake with one of the sockets that arrived, and the hello read from this
  -- socket carried, for its role, exactly the token that the relay expects there, not the empty one.
  pub live-Admitted :
      (events : List Event)
      → accepted (managed events) ≡ accept_loop hellos responses timing v arrivals
      → All BothAdmitted (run new_system events).bridge.live
  unfolding new_system new_bridge
  live-Admitted events same =
      let vetted =
        subst (All IsAccepted) (sym same) (accept_loop-Vetted hellos responses timing v arrivals) in
      let i =
        run-IsJoined IsAccepted new_system events vetted
          (record { clients = new-IsVetted IsAccepted; pairs = tt }) in
      joined-BothAdmitted (run new_system events).bridge.live i.pairs
