-- ===== src/Transport/Timing/Tests.antt =====
-- The production schedule, and the theorems at concrete inputs.
use mathlib.Core.List.{reverse}
use mathlib.Core.List.{reverse_perm}
use mhp.Prelude.{◌≡◌, refl, true, pos, leℤ, arith}
use mhp.Errors.{ok, err, sentinel, invalid_timing}
use mhp.Transport.Timing.{default_timing, seconds, validate, backoff}
use mhp.Transport.Timing.Backoff.{backoff-eq, validate_order, backoff_bounds}

default_timing_valid : validate (λ ds. reverse ds) default_timing ≡ ok tt
unfolding validate
default_timing_valid = refl

zero_dial :
    validate (λ ds. ds) (record default_timing { dial_timeout = pos 0 })
    ≡ err (sentinel invalid_timing)
unfolding validate
zero_dial = refl

validate_order_at_input :
    validate (λ ds. reverse ds) default_timing ≡ validate (λ ds. ds) default_timing
validate_order_at_input = validate_order (λ ds. reverse ds) default_timing (λ ds. reverse_perm ds)

backoff-eq_at_input : backoff default_timing 3 (pos 5) ≡ pos 8_000_000_005
backoff-eq_at_input =
    backoff-eq default_timing 3 1_000_000_000 30_000_000_000 5 refl refl (omega arith) (omega arith)
      (omega arith)

backoff_bounds_at_input :
    (leℤ (seconds 1) (backoff default_timing 9 (pos 7)) ≡ true)
    × (leℤ (backoff default_timing 9 (pos 7)) (seconds 30) ≡ true)
backoff_bounds_at_input =
    backoff_bounds (λ ds. reverse ds) default_timing 9 7 (λ ds. reverse_perm ds)
      default_timing_valid refl refl
