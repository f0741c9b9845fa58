-- ===== src/Relay/Service/Shutdown.antt =====
-- What the shutdown of the relay reaches (internal/relay/service.go).
use mathlib.Core.Path.{subst}
use mhp.Prelude.{
  times, times-append, times_self, all_zero, ℕ, zero, suc, ◌+◌, ◌<◌, ◌≤◌, ◌≡◌, refl, sym, Option,
  none, some, List, [], ◌∷◌, ◌++◌, get_elem?, erase_idx, arith, All,
}
use mhp.Relay.Registry.{register}
use mhp.Relay.Service.{
  Client, Worker, Service, new_service, accept, close_previous, close_served, begin_client, begin,
  finish_worker, finish, leave_client, leave, close_all, delete, Event, accepts, begins, finishes,
  leaves, shuts_down, step, run,
}

-- The sessions of the goroutines of each stage.
abbrev pub clients : List Client → List ℕ
clients [] = []
clients (c ∷ cs) = c.mux ∷ clients cs

abbrev pub worker_clients : List Worker → List ℕ
worker_clients [] = []
worker_clients (w ∷ ws) = w.client.mux ∷ worker_clients ws

-- The goroutines that have not come to their `Vacate` yet.
abbrev pub alive : ℕ → Service → ℕ
alive x s = times x (clients s.pending) + times x (worker_clients s.workers)

pick_client :
    (x n : ℕ) (cs : List Client) (c : Client)
    → get_elem? cs n ≡ some c
    → times x (clients cs) ≡ times x (c.mux ∷ []) + times x (clients (erase_idx cs n))
pick_client x n [] c h = cc
pick_client x zero (d ∷ cs) c h = ground arith
pick_client x (suc n) (d ∷ cs) c h = ground (arith, pick_client x n cs c h)

pick_worker :
    (x n : ℕ) (ws : List Worker) (w : Worker)
    → get_elem? ws n ≡ some w
    → times x (worker_clients ws)
      ≡ times x (w.client.mux ∷ []) + times x (worker_clients (erase_idx ws n))
pick_worker x n [] w h = cc
pick_worker x zero (v ∷ ws) w h = ground arith
pick_worker x (suc n) (v ∷ ws) w h = ground (arith, pick_worker x n ws w h)

times-delete :
    (x y : ℕ) (ys : List ℕ) → 0 < times y ys → times x ys ≡ times x (y ∷ []) + times x (delete y ys)
unfolding delete
times-delete x y [] h = absurd (omega arith)
times-delete x y (z ∷ ys) h = ground (arith, times-delete x y ys)

-- The set of sessions is the sessions of all goroutines.
abbrev pub IsTracked : Service → Type 0
IsTracked s = (x : ℕ) → times x s.sessions ≡ alive x s + times x (clients s.leaving)

begin-IsTracked :
    (s : Service) (n : ℕ) (c : Option Client)
    → get_elem? s.pending n ≡ c
    → IsTracked s
    → IsTracked (begin_client s n c)
begin-IsTracked s n none h t x = t x
begin-IsTracked s n (some c) h t x = ground (arith, t x, pick_client x n s.pending c h)

finish-IsTracked :
    (s : Service) (n : ℕ) (w : Option Worker)
    → get_elem? s.workers n ≡ w
    → IsTracked s
    → IsTracked (finish_worker s n w)
finish-IsTracked s n none h t x = t x
finish-IsTracked s n (some w) h t x = ground (arith, t x, pick_worker x n s.workers w h)

leave-IsTracked :
    (s : Service) (n : ℕ) (c : Option Client)
    → get_elem? s.leaving n ≡ c
    → IsTracked s
    → IsTracked (leave_client s n c)
leave-IsTracked s n none h t x = t x
leave-IsTracked s n (some c) h t x =
    let here = pick_client c.mux n s.leaving c h in
    let found : 0 < times c.mux s.sessions = omega (arith, t c.mux, here, times_self c.mux) in
    omega (arith, t x, pick_client x n s.leaving c h, times-delete x c.mux s.sessions found)

step-IsTracked : (s : Service) (event : Event) → IsTracked s → IsTracked (step s event)
unfolding step accept begin finish leave close_all
step-IsTracked s (accepts c) t x = ground (arith, t x)
step-IsTracked s (begins n) t x = begin-IsTracked s n (get_elem? s.pending n) refl t x
step-IsTracked s (finishes n) t x = finish-IsTracked s n (get_elem? s.workers n) refl t x
step-IsTracked s (leaves n) t x = leave-IsTracked s n (get_elem? s.leaving n) refl t x
step-IsTracked s shuts_down t x = t x

run-IsTracked : (s : Service) (events : List Event) → IsTracked s → IsTracked (run s events)
unfolding run
run-IsTracked s [] t = t
run-IsTracked s (event ∷ events) t = run-IsTracked (step s event) events (step-IsTracked s event t)

-- Every session whose goroutine has not come to its `Vacate` is closed.
abbrev pub IsDown : Service → Type 0
IsDown s = (x : ℕ) → 0 < alive x s → 0 < times x s.closed

close_previous-le :
    (x : ℕ) (prev : Option ℕ) (closed : List ℕ)
    → times x closed ≤ times x (close_previous prev closed)
close_previous-le x none closed = omega arith
close_previous-le x (some y) closed = ground arith

close_served-le :
    (x : ℕ) (c : Client) (closed : List ℕ) → times x closed ≤ times x (close_served c closed)
close_served-le x c closed = ground arith

begin-IsDown :
    (s : Service) (n : ℕ) (c : Option Client)
    → get_elem? s.pending n ≡ c
    → IsDown s
    → IsDown (begin_client s n c)
begin-IsDown s n none h d x l = d x l
begin-IsDown s n (some c) h d x l =
    let kept = close_previous-le x (register s.registry c.role (some c.mux)).0.0 s.closed in
    let before : 0 < alive x s = ground (arith, l, pick_client x n s.pending c h) in
    omega (arith, d x before, kept)

finish-IsDown :
    (s : Service) (n : ℕ) (w : Option Worker)
    → get_elem? s.workers n ≡ w
    → IsDown s
    → IsDown (finish_worker s n w)
finish-IsDown s n none h d x l = d x l
finish-IsDown s n (some w) h d x l =
    let before : 0 < alive x s = ground (arith, l, pick_worker x n s.workers w h) in
    omega (arith, d x before, close_served-le x w.client s.closed)

leave-IsDown : (s : Service) (n : ℕ) (c : Option Client) → IsDown s → IsDown (leave_client s n c)
leave-IsDown s n none d x l = d x l
leave-IsDown s n (some c) d x l = d x l

close_all-IsDown : (s : Service) → IsTracked s → IsDown (close_all s)
unfolding close_all
close_all-IsDown s t x l = omega (arith, t x, l, times-append x s.sessions s.closed)

-- What may happen once the accept loop has returned.
abbrev pub IsLate : Event → Type 0
IsLate (accepts c) = ⊥
IsLate _ = Unit

step-IsDown :
    (s : Service) (event : Event) → IsLate event → IsTracked s → IsDown s → IsDown (step s event)
unfolding step begin finish leave
step-IsDown s (accepts c) h t d x l = absurd h
step-IsDown s (begins n) h t d x l = begin-IsDown s n (get_elem? s.pending n) refl d x l
step-IsDown s (finishes n) h t d x l = finish-IsDown s n (get_elem? s.workers n) refl d x l
step-IsDown s (leaves n) h t d x l = leave-IsDown s n (get_elem? s.leaving n) d x l
step-IsDown s shuts_down h t d x l = close_all-IsDown s t x l

run-IsDown :
    (s : Service) (events : List Event)
    → All IsLate events
    → IsTracked s
    → IsDown s
    → IsDown (run s events)
unfolding run
run-IsDown s [] h t d = d
run-IsDown s (event ∷ events) h t d =
    run-IsDown (step s event) events h.1 (step-IsTracked s event t) (step-IsDown s event h.0 t d)

run-append :
    (s : Service) (first second : List Event) → run s (first ++ second) ≡ run (run s first) second
unfolding run
run-append s [] second = refl
run-append s (event ∷ first) second = run-append (step s event) first second

new-IsTracked : IsTracked new_service
unfolding new_service
new-IsTracked x = omega arith

-- Once no goroutine is left, the map of the sessions is empty.
sessions-empty :
    (events : List Event)
    → let s = run new_service events in
      s.pending ≡ [] → s.workers ≡ [] → s.leaving ≡ [] → s.sessions ≡ []
sessions-empty events p w l =
    all_zero (run new_service events).sessions
      (λ x. ground (arith, run-IsTracked new_service events new-IsTracked x, p, w, l))

-- Shutdown leaks no session: from the moment that `Run` has closed the sessions of its map, every
-- session whose goroutine has not come to its `Vacate` is closed, also one that registers only then.
pub shuts_down_closes :
    (before late : List Event) (x : ℕ)
    → All IsLate late
    → 0 < alive x (run new_service (before ++ shuts_down ∷ late))
    → 0 < times x (run new_service (before ++ shuts_down ∷ late)).closed
unfolding run step
shuts_down_closes before late x h =
    let s = run new_service before in
    let t = run-IsTracked new_service before new-IsTracked in
    subst IsDown (sym (run-append new_service before (shuts_down ∷ late)))
      (run-IsDown (close_all s) late h (step-IsTracked s shuts_down t) (close_all-IsDown s t)) x
