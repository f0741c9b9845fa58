-- ===== src/Transport/Retry/Tests.antt =====
-- The retries of a client (internal/transport/authenticator.go) at concrete attempts.
use mathlib.Core.List.{reverse, reverse_perm}
use mhp.Prelude.{◌≡◌, refl, add64, double64, pos, none, some, [], ◌∷◌}
use mhp.Errors.{ok, err, sentinel, dial_failed, canceled}
use mhp.Config.{mode_exit}
use mhp.Transport.Timing.{default_timing, validate, backoff}
use mhp.Transport.Handshake.{Session}
use mhp.Transport.Retry.{Attempt, fails, run}
use mhp.Transport.Retry.Waits.{IsFailure, Waits, run-Waits}

abbrev session : Session
session = record { id = []; mux = 4; role = mode_exit }

abbrev failure : Attempt
failure = record { answer = err (sentinel dial_failed); jitter = 5; cancelled = none }

abbrev success : Attempt
success = record { answer = ok session; jitter = 0; cancelled = none }

failure-IsFailure : IsFailure default_timing failure
failure-IsFailure = record {
  reason = sentinel dial_failed;
  failed = refl;
  patient = refl;
  fair = refl;
}

default_timing_valid : validate (λ ds. reverse ds) default_timing ≡ ok tt
unfolding validate
default_timing_valid = refl

run-Waits_example :
    Waits default_timing session 2 (run default_timing 0 (failure ∷ failure ∷ success ∷ []))
run-Waits_example =
    run-Waits (λ ds. reverse ds) default_timing (failure ∷ failure ∷ []) [] success session
      (λ ds. reverse_perm ds) default_timing_valid refl (failure-IsFailure, (failure-IsFailure, tt))
      refl

cancelled-run :
    run default_timing 0 (failure ∷ record failure { cancelled = some (sentinel canceled) } ∷ [])
    ≡ (fails (sentinel canceled), pos 1_000_000_005 ∷ pos 2_000_000_005 ∷ [])
unfolding run backoff add64 double64
cancelled-run = refl
