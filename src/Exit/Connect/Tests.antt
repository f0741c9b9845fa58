-- ===== src/Exit/Connect/Tests.antt =====
-- CONNECT requests at concrete inputs.
use mhp.Prelude.{◌+◌, ◌≡◌, refl, none, some, [], ◌∷◌, ◌++◌, Bytes, arith, if◌then◌else◌}
use mhp.Errors.{ok, sentinel, eof}
use mhp.Exit.Access.{new_policy, to4, normalised, allowed, v4_in_v6_prefix}
use mhp.Exit.Connect.{Env, handle_connect}
use mhp.Exit.Connect.Dials.{
  Answers, handle_connect-dialed, handle_connect-refused_v4, handle_connect-Answers,
}

abbrev env : Env
env = record { dial = λ ip port. ok (port + 1); send = none; clear = some (sentinel eof) }

abbrev metadata : Bytes
metadata = 169 ∷ 254 ∷ 169 ∷ 254 ∷ []

handle_connect-dialed_example :
    (handle_connect env new_policy metadata 80).dialed
    ≡ (if allowed new_policy metadata then (normalised (to4 metadata) metadata, 80) ∷ [] else [])
handle_connect-dialed_example = handle_connect-dialed env new_policy metadata 80

handle_connect-refused_v4_example :
    ((handle_connect env new_policy metadata 80).dialed ≡ [])
    × ((handle_connect env new_policy (v4_in_v6_prefix ++ metadata) 80).dialed ≡ [])
handle_connect-refused_v4_example =
    handle_connect-refused_v4 env 169 254 169 254 80 (omega arith) (omega arith) (omega arith)
      (omega arith) refl

handle_connect-Answers_at_input :
    Answers env (normalised (to4 metadata) metadata) 80 (handle_connect env new_policy metadata 80)
handle_connect-Answers_at_input = handle_connect-Answers env new_policy metadata 80
