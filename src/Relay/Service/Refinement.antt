-- ===== src/Relay/Service/Refinement.antt =====
-- The service implements its specification (internal/relay/service.go and registry.go).
use mathlib.Core.Path.{subst}
use mhp.Prelude.{
  ℕ, zero, suc, ◌+◌, ◌^◌, ◌<◌, ◌≡◌, refl, ap, ◌∙◌, inl, inr, Bool, ◌==◌, Bool-cases, Option, none,
  some, List, [], ◌∷◌, get_elem?, erase_idx, length, arith, if◌then◌else◌,
}
use mhp.Config.{Mode, mode_eq, mode_eq_iff, mode_eq_refl}
use mhp.Relay.Registry.{Registry, bump, new_registry, register, current, vacate}
use mhp.Relay.Registry.Isolation.{gen_of}
use mhp.Relay.Service.{
  Client, Worker, Service, new_service, accept, begin_client, begin, finish_worker, finish,
  leave_client, leave, close_all, Event, accepts, begins, finishes, leaves, shuts_down, step, run,
}
use mhp.Relay.Service.Spec.{
  Started, Spec, holds, take_over, give_up, spec_begin, spec_finish, spec_step, spec_run,
  empty_spec, session_of,
}
use mhp.Relay.Service.Tied.{
  mux_of, Tied, AllTied, gen_of-register, mux_of-register, gen_of-vacate, mux_of-vacate, begin_all,
  finish-Tied,
}

-- `left` more steps cannot wrap a generation.
record Refines (left : ℕ) (s : Service) (t : Spec) : Type 0 where
  waiting : s.pending ≡ t.pending
  tied : AllTied s.registry t s.workers t.serving
  shows : (m : Mode) → mux_of s.registry m ≡ session_of (t.holder m)
  room : (m : Mode) → gen_of s.registry m + left < 2 ^ 64

-- The same place in two tied lists.
data Place (reg : Registry) (t : Spec) : Option Worker → Option Started → Type 0 where
  outside : Place reg t none none
  at : {w : Worker} {v : Started} → Tied reg t w v → Place reg t (some w) (some v)

place :
    (reg : Registry) (t : Spec) (ws : List Worker) (vs : List Started) (n : ℕ)
    → AllTied reg t ws vs
    → Place reg t (get_elem? ws n) (get_elem? vs n)
place reg t [] [] n e = outside
place reg t (w ∷ ws) (v ∷ vs) zero e = at e.0
place reg t (w ∷ ws) (v ∷ vs) (suc n) e = place reg t ws vs n e.1
place reg t [] (v ∷ vs) n e = absurd e
place reg t (w ∷ ws) [] n e = absurd e

erase_all :
    (reg : Registry) (t : Spec) (ws : List Worker) (vs : List Started) (n : ℕ)
    → AllTied reg t ws vs
    → AllTied reg t (erase_idx ws n) (erase_idx vs n)
erase_all reg t [] [] n e = tt
erase_all reg t (w ∷ ws) (v ∷ vs) zero e = e.1
erase_all reg t (w ∷ ws) (v ∷ vs) (suc n) e = (e.0, erase_all reg t ws vs n e.1)
erase_all reg t [] (v ∷ vs) n e = absurd e
erase_all reg t (w ∷ ws) [] n e = absurd e

finish_all :
    (left : ℕ) (reg : Registry) (t : Spec) (n : ℕ) (w : Worker) (v : Started) (xs : List Worker)
    (ys : List Started)
    → ((m : Mode) → gen_of reg m + suc left < 2 ^ 64)
    → Tied reg t w v
    → AllTied reg t xs ys
    → AllTied (vacate reg w.client.role w.gen) (spec_finish t n (some v)) xs ys
finish_all left reg t n w v [] [] room e f = tt
finish_all left reg t n w v (x ∷ xs) (y ∷ ys) room e f =
    (finish-Tied left reg t n w x v y room e f.0, finish_all left reg t n w v xs ys room e f.1)
finish_all left reg t n w v [] (y ∷ ys) room e f = absurd f
finish_all left reg t n w v (x ∷ xs) [] room e f = absurd f

new_gen :
    (reg : Registry) (c : Client)
    → gen_of reg c.role + 1 < 2 ^ 64
    → ((register reg c.role (some c.mux)).0.1 ≡ gen_of reg c.role + 1)
      × (gen_of (register reg c.role (some c.mux)).1 c.role ≡ gen_of reg c.role + 1)
unfolding register bump
new_gen reg c h = ground (arith, mode_eq_refl c.role)

begin_shows :
    (left : ℕ) (s : Service) (t : Spec) (c : Client) (n : ℕ) (m : Mode)
    → Refines (suc left) s t
    → mux_of (register s.registry c.role (some c.mux)).1 m
      ≡ session_of (take_over c.role (c.mux, t.begun) t.holder m)
begin_shows left s t c n m r =
    mux_of-register s.registry c.role m c.mux
    ∙ elim (Bool-cases (mode_eq c.role m)) [ inl q ↦ rw q refl | inr q ↦ rw q (r.shows m) ]

given_up_shows :
    (h : Option (ℕ × ℕ)) (mux : Option ℕ) (current_gen : Bool) (place : ℕ)
    → current_gen ≡ holds h place
    → mux ≡ session_of h
    → (if current_gen then none else mux) ≡ session_of (if holds h place then none else h)
given_up_shows h mux current_gen place e f = elim (Bool-cases (holds h place)) [
  | inl q ↦ rw (e ∙ q, q) refl
  | inr q ↦ rw (e ∙ q, q) f
]

finish_shows :
    (left : ℕ) (s : Service) (t : Spec) (n : ℕ) (w : Worker) (v : Started) (m : Mode)
    → Refines (suc left) s t
    → Tied s.registry t w v
    → mux_of (vacate s.registry w.client.role w.gen) m
      ≡ session_of (give_up v.role v.order t.holder m)
finish_shows left s t n w v m r e =
    mux_of-vacate s.registry w.client.role m w.gen e.positive
    ∙ rw e.same_role (elim (Bool-cases (mode_eq w.client.role m)) [
      | inl q ↦ rw q (
          given_up_shows (t.holder m) (mux_of s.registry m) (w.gen == gen_of s.registry m) v.order
            (rw ((mode_eq_iff w.client.role m).0 q) at e.both) (r.shows m))
      | inr q ↦ rw q (r.shows m)
    ])

begin-Refines :
    (left n : ℕ) (s : Service) (t : Spec) (found_client : Option Client)
    → Refines (suc left) s t
    → Refines left (begin_client s n found_client) (spec_begin t n found_client)
begin-Refines left n s t none r = record {
  waiting = r.waiting;
  tied = r.tied;
  shows = r.shows;
  room = λ m. omega (arith, r.room m);
}
begin-Refines left n s t (some c) r =
    let wraps : gen_of s.registry c.role + 1 < 2 ^ 64 = omega (arith, r.room c.role) in
    record {
      waiting = ap (λ q. erase_idx q n) r.waiting;
      tied = (
        record {
          same_role = refl;
          positive = ground (arith, new_gen s.registry c wraps);
          not_ahead = ground (arith, new_gen s.registry c wraps);
          earlier = omega arith;
          both = ground (arith, new_gen s.registry c wraps, mode_eq_refl c.role);
        },
        begin_all left s.registry t c n s.workers t.serving r.room r.tied,
      );
      shows = λ m. begin_shows left s t c n m r;
      room = λ m. ground (arith, gen_of-register s.registry c.role m c.mux wraps, r.room m);
    }

finish-Refines :
    (left n : ℕ) (s : Service) (t : Spec)
    → Refines (suc left) s t
    → (w : Option Worker) (v : Option Started) → Place s.registry t w v
    → Refines left (finish_worker s n w) (spec_finish t n v)
finish-Refines left n s t r none none outside = record {
  waiting = r.waiting;
  tied = r.tied;
  shows = r.shows;
  room = λ m. omega (arith, r.room m);
}
finish-Refines left n s t r none (some v) e = elim e [ ]
finish-Refines left n s t r (some w) none e = elim e [ ]
finish-Refines left n s t r (some w) (some v) (at e) = record {
  waiting = r.waiting;
  tied =
      finish_all left s.registry t n w v (erase_idx s.workers n) (erase_idx t.serving n) r.room e
        (erase_all s.registry t s.workers t.serving n r.tied);
  shows = λ m. finish_shows left s t n w v m r e;
  room = λ m. ground (
    arith,
    gen_of-vacate s.registry w.client.role m w.gen e.positive (omega (arith, r.room w.client.role)),
    r.room m,
  );
}

leave-Refines :
    (left n : ℕ) (s : Service) (t : Spec) (c : Option Client)
    → Refines (suc left) s t
    → Refines left (leave_client s n c) t
leave-Refines left n s t none r = record {
  waiting = r.waiting;
  tied = r.tied;
  shows = r.shows;
  room = λ m. omega (arith, r.room m);
}
leave-Refines left n s t (some c) r = record {
  waiting = r.waiting;
  tied = r.tied;
  shows = r.shows;
  room = λ m. omega (arith, r.room m);
}

accept_all :
    (reg : Registry) (t : Spec) (pending : List Client) (ws : List Worker) (vs : List Started)
    → AllTied reg t ws vs
    → AllTied reg (record t { pending = pending }) ws vs
accept_all reg t pending [] [] e = tt
accept_all reg t pending (w ∷ ws) (v ∷ vs) e = (
  record {
    same_role = e.0.same_role;
    positive = e.0.positive;
    not_ahead = e.0.not_ahead;
    earlier = e.0.earlier;
    both = e.0.both;
  },
  accept_all reg t pending ws vs e.1,
)
accept_all reg t pending [] (v ∷ vs) e = absurd e
accept_all reg t pending (w ∷ ws) [] e = absurd e

step-Refines :
    (left : ℕ) (s : Service) (t : Spec) (event : Event)
    → Refines (suc left) s t
    → Refines left (step s event) (spec_step t event)
unfolding step spec_step accept begin finish leave close_all
step-Refines left s t (accepts c) r = record {
  waiting = ap (◌∷◌ c) r.waiting;
  tied = accept_all s.registry t (c ∷ t.pending) s.workers t.serving r.tied;
  shows = r.shows;
  room = λ m. omega (arith, r.room m);
}
step-Refines left s t (begins n) r =
    subst
      (λ q.
        Refines left (begin_client s n (get_elem? s.pending n)) (spec_begin t n (get_elem? q n)))
      r.waiting (begin-Refines left n s t (get_elem? s.pending n) r)
step-Refines left s t (finishes n) r =
    finish-Refines left n s t r (get_elem? s.workers n) (get_elem? t.serving n)
      (place s.registry t s.workers t.serving n r.tied)
step-Refines left s t (leaves n) r = leave-Refines left n s t (get_elem? s.leaving n) r
step-Refines left s t shuts_down r = record {
  waiting = r.waiting;
  tied = r.tied;
  shows = r.shows;
  room = λ m. omega (arith, r.room m);
}

run-Refines :
    (s : Service) (t : Spec) (events : List Event)
    → Refines (length events) s t
    → Refines 0 (run s events) (spec_run t events)
unfolding run spec_run
run-Refines s t [] r = r
run-Refines s t (event ∷ events) r =
    run-Refines (step s event) (spec_step t event) events (step-Refines (length events) s t event r)

session_of-current : (reg : Registry) (m : Mode) → session_of (current reg m) ≡ mux_of reg m
unfolding current
session_of-current reg m = ground arith

new-Refines : (left : ℕ) → left < 2 ^ 64 → Refines left new_service empty_spec
unfolding new_service new_registry
new-Refines left h = record {
  waiting = refl;
  tied = tt;
  shows = λ m. refl;
  room = λ m. omega (arith, h);
}

-- The generations implement the order of the starts: after any history of fewer than 2^64 steps of the
-- relay, whatever way its goroutines interleave, the current session of each role is the one that
-- started last in it, as long as that one has not ended; sessions that it replaced, and that end
-- later, change nothing.
pub current-run :
    (events : List Event) (m : Mode)
    → length events < 2 ^ 64
    → session_of (current (run new_service events).registry m)
      ≡ session_of ((spec_run empty_spec events).holder m)
current-run events m h =
    session_of-current (run new_service events).registry m
    ∙ (run-Refines new_service empty_spec events (new-Refines (length events) h)).shows m
