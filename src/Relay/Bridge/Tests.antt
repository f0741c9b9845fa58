-- ===== src/Relay/Bridge/Tests.antt =====
-- The bridge at concrete inputs.
use mhp.Prelude.{ℕ, ◌≡◌, refl, some, List, [], ◌∷◌}
use mhp.Errors.{ok}
use mhp.Config.{mode_exit, mode_eq}
use mhp.Relay.Registry.{Registry, new_registry, register, current}
use mhp.Relay.Bridge.{Stream, new_bridge, serve_proxy, step, run, Event, accepts, reverses, ends}
use mhp.Relay.Bridge.Accounts.{
  IsCounted, Handled, held, taken, times, all_taken, serve_proxy-Handled, run-new_bridge-IsCounted,
  run-new_bridge-held,
}

abbrev with_exit : Registry
with_exit = (register new_registry mode_exit (some 20)).1

abbrev stream : ℕ → ℕ → Stream
stream session id = record { session = session; id = id }

-- A stream without an exit, one from each of two proxy sessions under the same id, a reverse stream,
-- and the end of the older pair.
abbrev history : List Event
history =
    accepts new_registry (stream 10 1) (λ s. ok 2)
    ∷ accepts with_exit (stream 10 3) (λ s. ok 2)
    ∷ accepts with_exit (stream 11 3) (λ s. ok 4)
    ∷ reverses (stream 20 1)
    ∷ ends 1
    ∷ []

-- The younger pair runs on, but `active` has lost its id to the end of the older one.
history_result : run new_bridge history ≡ record {
  active = [];
  conns = 1;
  live = record { proxy = stream 11 3; exit = stream 20 4 } ∷ [];
  closed = stream 20 2 ∷ stream 10 3 ∷ stream 20 1 ∷ stream 10 1 ∷ [];
}
unfolding run step current register mode_eq new_registry new_bridge
history_result = refl

serve_proxy-Handled_at_input :
    Handled
      (stream 10 3)
      (taken (accepts with_exit (stream 10 3) (λ s. ok 2)))
      new_bridge
      (serve_proxy new_bridge with_exit (stream 10 3) (λ s. ok 2))
serve_proxy-Handled_at_input = serve_proxy-Handled new_bridge with_exit (stream 10 3) (λ s. ok 2)

run-new_bridge-IsCounted_example : IsCounted (run new_bridge history)
run-new_bridge-IsCounted_example = run-new_bridge-IsCounted history

run-new_bridge-held_example :
    held (stream 11 3) (run new_bridge history) ≡ times (stream 11 3) (all_taken history)
run-new_bridge-held_example = run-new_bridge-held history (stream 11 3)
