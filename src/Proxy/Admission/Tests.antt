-- ===== src/Proxy/Admission/Tests.antt =====
-- The admission of browser connections (internal/proxy/listener.go) on concrete connections.
use mhp.Prelude.{◌≡◌, refl, List, [], ◌∷◌}
use mhp.Proxy.Admission.{
  new_listener, acquire, release, serve, done, Event, accepts, ends, step, run, max_pending,
}
use mhp.Proxy.Admission.Accounts.{IsSound, run-new_listener-IsSound}

abbrev two_of_three : List Event
two_of_three = accepts 7 ∷ accepts 8 ∷ ends 1 ∷ accepts 9 ∷ ends 5 ∷ []

run-new_listener-IsSound_example : IsSound (7 ∷ 8 ∷ 9 ∷ []) (run new_listener two_of_three)
run-new_listener-IsSound_example = run-new_listener-IsSound two_of_three

two_of_three-run :
    run new_listener two_of_three ≡ record { sem = 2; serving = 9 ∷ 8 ∷ []; closed = 7 ∷ [] }
unfolding run step serve acquire done release new_listener
two_of_three-run = refl

-- A full listener closes the connection and stays full.
full-serve :
    serve (record { sem = max_pending; serving = []; closed = [] }) 3
    ≡ record { sem = max_pending; serving = []; closed = 3 ∷ [] }
unfolding serve acquire
full-serve = refl
