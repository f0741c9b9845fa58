-- ===== src/Relay/Registry/Tests.antt =====
-- Runs of the registry, and the theorems at concrete inputs.
use mhp.Prelude.{◌≡◌, refl, not, true, false, ◌==◌, some, none, List, [], ◌∷◌, arith}
use mhp.Config.{mode_eq, mode_exit, mode_proxy, Mode}
use mhp.Relay.Registry.{
  Registry, found, new_registry, register, current, stale, vacate, Op, registers, vacates, run,
}
use mhp.Relay.Registry.Isolation.{
  register-current, stale-current, vacate_superseded, current_undisturbed,
}

-- An exit session 7 holds the exit role.
abbrev one_exit : Registry
one_exit = (register new_registry mode_exit (some 7)).1

exit_registered : current one_exit mode_exit ≡ some (7, 1)
unfolding current register new_registry mode_eq
exit_registered = refl

replaced : (register one_exit mode_exit (some 8)).0 ≡ (some 7, 2)
unfolding register new_registry mode_eq
replaced = refl

register-current_at_input :
    let ((prev, gen), r) = register one_exit mode_exit (some 8) in
    (current r mode_exit ≡ some (8, gen))
    × (stale r mode_exit gen ≡ false)
    × (prev ≡ (found (one_exit.slots mode_exit)).mux)
    × ((k : Mode) → mode_eq mode_exit k ≡ false → current r k ≡ current one_exit k)
register-current_at_input = register-current one_exit mode_exit 8

stale-current_at_input : stale one_exit mode_exit 3 ≡ not (1 == 3)
stale-current_at_input = stale-current one_exit mode_exit 7 1 3 exit_registered

-- The exit role changes hands, and a proxy comes and goes meanwhile.
abbrev handover : List Op
handover = registers mode_proxy (some 4) ∷ registers mode_exit (some 8) ∷ vacates mode_proxy 1 ∷ []

vacate_superseded_example :
    let r = run one_exit handover in
    (vacate r mode_exit (register new_registry mode_exit (some 7)).0.1 ≡ r)
    × (stale r mode_exit (register new_registry mode_exit (some 7)).0.1 ≡ true)
unfolding mode_eq
vacate_superseded_example =
    vacate_superseded new_registry mode_exit (some 7) handover (omega arith) refl

current_undisturbed_at_input :
    let r = run one_exit (registers mode_proxy (some 4) ∷ vacates mode_exit 9 ∷ []) in
    (current r mode_exit ≡ some (7, 1)) × (current (vacate r mode_exit 1) mode_exit ≡ none)
unfolding mode_eq
current_undisturbed_at_input =
    current_undisturbed one_exit mode_exit 7 1
      (registers mode_proxy (some 4) ∷ vacates mode_exit 9 ∷ []) exit_registered refl refl
