-- ===== src/Relay/Service/Vetted.antt =====
-- Whose sessions the relay pairs streams for (internal/relay/service.go, registry.go and
-- internal/transport/handshake.go).
use mathlib.Core.Path.{subst}
use mhp.Prelude.{
  ℕ, suc, ◌≡◌, refl, sym, ap, ◌∙◌, inl, inr, Bool-cases, Option, none, some, List, [], ◌∷◌,
  get_elem?, All, All-get_elem?, All-erase_idx, arith,
}
use mhp.Errors.{Result, ok, err}
use mhp.Config.{Mode, mode_eq, mode_eq_iff}
use mhp.Transport.Conn.{Conn}
use mhp.Transport.Framing.{Codec}
use mhp.Transport.Records.{Hello, Response}
use mhp.Transport.Timing.{Timing}
use mhp.Transport.Handshake.{
  Verifier, Session, ServerEnv, Arrival, connects, accept_error, handshake,
}
use mhp.Transport.Handshake.Verifier.{Authentic, handshake-Authentic}
use mhp.Relay.Registry.{Registry, new_registry, register, current, vacate}
use mhp.Relay.Service.{
  Client, Worker, Service, new_service, accept, begin_client, begin, finish_worker, finish,
  leave_client, leave, close_all, Event, accepts, begins, finishes, leaves, shuts_down, step, run,
}
use mhp.Relay.Service.Accepting.{client_of, kept, accept_loop}
use mhp.Relay.Service.Tied.{mux_of, mux_of-register}

-- The clients of the accept events, in order.
abbrev pub accepted : List Event → List Client
accepted [] = []
accepted (accepts c ∷ events) = c ∷ accepted events
accepted (event ∷ events) = accepted events

-- The session in a role is that of a client with the property.
abbrev pub Shows : (Client → Type 0) → Mode → ℕ → Type 0
Shows P m x = (c : Client) × P c × (c.role ≡ m) × (c.mux ≡ x)

pub record IsVetted (P : Client → Type 0) (s : Service) : Type 0 where
  pub waiting : All P s.pending
  pub working : All (λ w. P w.client) s.workers
  pub shown : (m : Mode) (x : ℕ) → mux_of s.registry m ≡ some x → Shows P m x

shown-register :
    (P : Client → Type 0) (s : Service) (c : Client) (m : Mode) (x : ℕ)
    → IsVetted P s
    → P c
    → mux_of (register s.registry c.role (some c.mux)).1 m ≡ some x
    → Shows P m x
shown-register P s c m x i p h =
    let new = sym (mux_of-register s.registry c.role m c.mux) ∙ h in
    elim (Bool-cases (mode_eq c.role m)) [
      | inl e ↦ (c, p, (mode_eq_iff c.role m).0 e, ground (arith, new, e))
      | inr e ↦ i.shown m x (ground (arith, new, e))
    ]

begin-IsVetted :
    (P : Client → Type 0) (s : Service) (n : ℕ) (c : Option Client)
    → get_elem? s.pending n ≡ c
    → IsVetted P s
    → IsVetted P (begin_client s n c)
begin-IsVetted P s n none h i = i
begin-IsVetted P s n (some c) h i = record {
  waiting = All-erase_idx P s.pending n i.waiting;
  working = (All-get_elem? P s.pending n c h i.waiting, i.working);
  shown = λ m x. shown-register P s c m x i (All-get_elem? P s.pending n c h i.waiting);
}

still_shown :
    (reg : Registry) (r m : Mode) (g x : ℕ)
    → mux_of (vacate reg r g) m ≡ some x
    → mux_of reg m ≡ some x
unfolding vacate
still_shown reg r m g x h = ground (arith, h, mode_eq_iff r m)

finish-IsVetted :
    (P : Client → Type 0) (s : Service) (n : ℕ) (w : Option Worker)
    → IsVetted P s
    → IsVetted P (finish_worker s n w)
finish-IsVetted P s n none i = i
finish-IsVetted P s n (some w) i = record {
  waiting = i.waiting;
  working = All-erase_idx (λ v. P v.client) s.workers n i.working;
  shown = λ m x h. i.shown m x (still_shown s.registry w.client.role m w.gen x h);
}

leave-IsVetted :
    (P : Client → Type 0) (s : Service) (n : ℕ) (c : Option Client)
    → IsVetted P s
    → IsVetted P (leave_client s n c)
leave-IsVetted P s n none i = i
leave-IsVetted P s n (some c) i = record {
  waiting = i.waiting;
  working = i.working;
  shown = i.shown;
}

pub step-IsVetted :
    (P : Client → Type 0) (s : Service) (event : Event)
    → All P (accepted (event ∷ []))
    → IsVetted P s
    → IsVetted P (step s event)
unfolding step accept begin finish leave close_all
step-IsVetted P s (accepts c) a i = record {
  waiting = (a.0, i.waiting);
  working = i.working;
  shown = i.shown;
}
step-IsVetted P s (begins n) a i = begin-IsVetted P s n (get_elem? s.pending n) refl i
step-IsVetted P s (finishes n) a i = finish-IsVetted P s n (get_elem? s.workers n) i
step-IsVetted P s (leaves n) a i = leave-IsVetted P s n (get_elem? s.leaving n) i
step-IsVetted P s shuts_down a i = record {
  waiting = i.waiting;
  working = i.working;
  shown = i.shown;
}

-- The clients of an event and of those behind it.
pub accepted-split :
    (P : Client → Type 0) (event : Event) (events : List Event)
    → All P (accepted (event ∷ events))
    → All P (accepted (event ∷ [])) × All P (accepted events)
accepted-split P (accepts c) events a = ((a.0, tt), a.1)
accepted-split P (begins n) events a = (tt, a)
accepted-split P (finishes n) events a = (tt, a)
accepted-split P (leaves n) events a = (tt, a)
accepted-split P shuts_down events a = (tt, a)

run-IsVetted :
    (P : Client → Type 0) (s : Service) (events : List Event)
    → All P (accepted events)
    → IsVetted P s
    → IsVetted P (run s events)
unfolding run
run-IsVetted P s [] a i = i
run-IsVetted P s (event ∷ events) a i =
    let (first, rest) = accepted-split P event events a in
    run-IsVetted P (step s event) events rest (step-IsVetted P s event first i)

pub new-IsVetted : (P : Client → Type 0) → IsVetted P new_service
unfolding new_service new_registry
new-IsVetted P = record { waiting = tt; working = tt; shown = λ m x h. absurd (ground (arith, h)) }

pub current-mux_of :
    (reg : Registry) (m : Mode) (x gen : ℕ) → current reg m ≡ some (x, gen) → mux_of reg m ≡ some x
unfolding current
current-mux_of reg m x gen h = ground (arith, h)

module _ (hellos : Codec Hello) (responses : Codec Response) (timing : Timing) (v : Verifier) where
  -- A session that one of the arrivals has authenticated.
  pub record Welcomed (arrivals : List Arrival) (s : Session) : Type 0 where
    pub place : ℕ
    pub env : ServerEnv
    pub conn : Conn
    pub arrived : get_elem? arrivals place ≡ some (connects env conn)
    pub authentic : Authentic hellos responses env timing v conn s

  -- The client is that of such a session.
  abbrev pub Vetted : List Arrival → Client → Type 0
  Vetted arrivals c = (s : Session) × Welcomed arrivals s × (client_of s ≡ c)

  later :
      (first : Arrival) (arrivals : List Arrival) (cs : List Client)
      → All (Vetted arrivals) cs
      → All (Vetted (first ∷ arrivals)) cs
  later first arrivals [] a = tt
  later first arrivals (c ∷ cs) ((s, w, at), a) = (
    (
      s,
      record {
        place = suc w.place;
        env = w.env;
        conn = w.conn;
        arrived = w.arrived;
        authentic = w.authentic;
      },
      at,
    ),
    later first arrivals cs a,
  )

  kept-Vetted :
      (env : ServerEnv) (conn : Conn) (arrivals : List Arrival) (p : Result Session × Conn)
      (rest : List Client)
      → handshake hellos responses env timing v conn ≡ p
      → All (Vetted (connects env conn ∷ arrivals)) rest
      → All (Vetted (connects env conn ∷ arrivals)) (kept p rest)
  kept-Vetted env conn arrivals (ok s, c) rest h a =
      let authentic = handshake-Authentic hellos responses env timing v conn c s h in
      (
        (
          s,
          record { place = 0; env = env; conn = conn; arrived = refl; authentic = authentic },
          refl,
        ),
        a,
      )
  kept-Vetted env conn arrivals (err e, c) rest h a = a

  pub accept_loop-Vetted :
      (arrivals : List Arrival)
      → All (Vetted arrivals) (accept_loop hellos responses timing v arrivals)
  unfolding accept_loop
  accept_loop-Vetted [] = tt
  accept_loop-Vetted (accept_error e cancelled ∷ arrivals) = tt
  accept_loop-Vetted (connects env c ∷ arrivals) =
      let rest = accept_loop hellos responses timing v arrivals in
      kept-Vetted env c arrivals (handshake hellos responses env timing v c) rest refl
        (later (connects env c) arrivals rest (accept_loop-Vetted arrivals))

  -- Whatever the service has done with the clients of its accept loop: the session that holds a role
  -- came out of the handshake with one of the sockets that arrived, in which the client's hello
  -- carried the token that the relay expects for this very role, exit-node or proxy.
  pub current-Authentic :
      (arrivals : List Arrival) (events : List Event) (m : Mode) (x gen : ℕ)
      → accepted events ≡ accept_loop hellos responses timing v arrivals
      → current (run new_service events).registry m ≡ some (x, gen)
      → (s : Session) × Welcomed arrivals s × (s.role ≡ m) × (s.mux ≡ x)
  current-Authentic arrivals events m x gen same h =
      let P = Vetted arrivals in
      let vetted = subst (All P) (sym same) (accept_loop-Vetted arrivals) in
      let i = run-IsVetted P new_service events vetted (new-IsVetted P) in
      let (c, (s, welcomed, at), role, mux) =
        i.shown m x (current-mux_of (run new_service events).registry m x gen h) in
      (s, welcomed, ap (λ d. d.role) at ∙ role, ap (λ d. d.mux) at ∙ mux)
