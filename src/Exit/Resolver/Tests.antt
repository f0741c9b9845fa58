-- ===== src/Exit/Resolver/Tests.antt =====
-- The bounded resolver (internal/exit/resolver.go) on concrete calls.
use mhp.Prelude.{ℕ, pos, ◌≤◌, ◌≡◌, refl, none, some, List, [], ◌∷◌, ◌++◌, Bytes}
use mhp.Errors.{Result, ok, err, sentinel, canceled, net_closed}
use mhp.Exit.Resolver.{
  Resolver, new_bounded_resolver, enter, acquire, conclude, finish, Event, calls, acquires, leaves,
  returns, step, run,
}
use mhp.Exit.Resolver.Bounds.{IsSound, run-new_bounded_resolver-IsSound}
use mhp.Exit.Resolver.Ended.{open_calls, run-ended}

-- One slot: the second call waits for the first, whose name has two addresses; its own has none.
abbrev one_slot : List Event
one_slot =
    calls 7
    ∷ calls 8
    ∷ acquires 1
    ∷ acquires 0
    ∷ returns 0 (ok ((4 ∷ []) ∷ (5 ∷ []) ∷ []))
    ∷ acquires 0
    ∷ returns 0 (ok [])
    ∷ []

one_slot-run : run (new_bounded_resolver (pos 0)) one_slot ≡ record {
  bound = 1;
  limiter = 0;
  base = none;
  waiting = [];
  looking = [];
  returned = (8, err (sentinel net_closed)) ∷ (7, ok (4 ∷ [])) ∷ [];
}
unfolding run step enter acquire finish conclude new_bounded_resolver
one_slot-run = refl

run-new_bounded_resolver-IsSound_example :
    IsSound (7 ∷ 8 ∷ []) 2 (run (new_bounded_resolver (pos 2)) one_slot)
run-new_bounded_resolver-IsSound_example = run-new_bounded_resolver-IsSound (pos 2) one_slot

run-new_bounded_resolver-IsSound_at_zero :
    IsSound (7 ∷ 8 ∷ []) 1 (run (new_bounded_resolver (pos 0)) one_slot)
run-new_bounded_resolver-IsSound_at_zero = run-new_bounded_resolver-IsSound (pos 0) one_slot

abbrev gone : Resolver
gone = record {
  bound = 1;
  limiter = 1;
  base = some (sentinel canceled);
  waiting = 3 ∷ [];
  looking = 2 ∷ [];
  returned = [];
}

abbrev late : List Event
late = leaves 0 ∷ calls 4 ∷ []

run-ended_example :
    ((first : List (ℕ × Result Bytes)) × (last : List (ℕ × Result Bytes)) × ((run gone
          late).returned
        ≡ first ++ (4, err (sentinel canceled)) ∷ (last ++ [])))
    × (open_calls (run gone late) ≤ 2)
run-ended_example = run-ended gone (sentinel canceled) (leaves 0 ∷ []) [] 4 refl
