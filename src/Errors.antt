-- ===== src/Errors.antt =====
-- Go errors as `errors.Is` sees them: the sentinels that a chain of `fmt.Errorf` keeps.
use Prim.Native.String.{String}
use mathlib.Core.Logic.{ite}
use native.Mathlib.Decide.{ℕ_discrete}
use mhp.Prelude.{ℕ, Bytes, ◌≡◌, refl, Bool, true, false, ◌||◌}

-- The `errors.New` values of the repository, those of the Go library that the code tests or
-- returns, and every other one under a number.
pub data Sentinel : Type 0 where
  frame_too_large short_write malformed_record encode_failed : Sentinel
  protocol_version unexpected_role unexpected_status : Sentinel
  listen_tls_failed recv_failure send_failure empty_bearer bad_role wrong_token nil_session :
      Sentinel
  authentication exchange_failed close_failed dial_failed handshake_failed untrusted_ca : Sentinel
  invalid_timing drain_timeout : Sentinel
  canceled deadline_exceeded eof unexpected_eof io_short_write net_closed not_exist : Sentinel
  other : ℕ → Sentinel

pub data Error : Type 0 where
  -- the value itself, or `fmt.Errorf("%w: %d", s, detail)`
  sentinel : Sentinel → Error
  -- `fmt.Errorf("%w: %s", s, text)` where the text is modelled
  detail : Sentinel → Bytes → Error
  -- `fmt.Errorf("text: %w", err)`
  wrap : String → Error → Error
  -- `fmt.Errorf("%w: %v", s, err)`: the inner error is printed, and lost to `errors.Is`
  mark : Sentinel → Error → Error
  -- `fmt.Errorf("%w: %w", s, err)`
  join : Sentinel → Error → Error

sentinel_discrete : Discrete Sentinel
sentinel_discrete = hlevel ℕ_discrete

unfoldable pub same_sentinel : Sentinel → Sentinel → Bool
unfolding sentinel_discrete ℕ_discrete
same_sentinel s t = ite (sentinel_discrete s t) true false

-- `errors.Is(err, s)`.
unfoldable pub is : Sentinel → Error → Bool
unfolding same_sentinel
is s (sentinel t) = same_sentinel s t
is s (detail t text) = same_sentinel s t
is s (wrap text e) = is s e
is s (mark t e) = same_sentinel s t
is s (join t e) = same_sentinel s t || is s e

-- A Go result pair `(value, err)` where the value counts only without an error.
pub data Result {ℓ} (A : Type ℓ) : Type ℓ where
  ok : A → Result A
  err : Error → Result A

test_mark : is eof (mark frame_too_large (sentinel eof)) ≡ false
unfolding is
test_mark = refl
