-- ===== src/Transport/Retry.antt =====
-- internal/transport/authenticator.go: `Authenticator.Run`.
pub mod Waits
pub mod Tests
use mhp.Prelude.{ℕ, ◌+◌, ℤ, pos, Option, none, some, List, [], ◌∷◌}
use mhp.Errors.{Error, Result, ok, err}
use mhp.Transport.Timing.{Timing, backoff}
use mhp.Transport.Handshake.{Session}

-- One attempt: what `authenticate` returns, the jitter of its delay, and the error of the context
-- when that ends the wait.
pub record Attempt : Type 0 where
  pub answer : Result Session
  pub jitter : ℕ
  pub cancelled : Option Error

-- `waits` is a call that has not returned.
pub data RunResult : Type 0 where
  waits : RunResult
  fails : Error → RunResult
  authenticated : Session → RunResult

abbrev pub waited : ℤ → RunResult × List ℤ → RunResult × List ℤ
waited d (r, ds) = (r, d ∷ ds)

-- The result of an attempt, with the delay behind it; `rest` is that of the next ones.
abbrev pub tried : ℤ → Result Session → Option Error → RunResult × List ℤ → RunResult × List ℤ
tried d (ok s) cancelled rest = (authenticated s, [])
tried d (err e) (some c) rest = (fails c, d ∷ [])
tried d (err e) none rest = waited d rest

-- From attempt `n` on, with the delays in order.
unfoldable pub run : Timing → ℕ → List Attempt → RunResult × List ℤ
run t n [] = (waits, [])
run t n (a ∷ attempts) =
    tried (backoff t n (pos a.jitter)) a.answer a.cancelled (run t (n + 1) attempts)
