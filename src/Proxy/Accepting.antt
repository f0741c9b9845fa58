-- ===== src/Proxy/Accepting.antt =====
-- internal/proxy/listener.go: the accept loop of `Run`.
use mhp.Prelude.{ℕ, Option, none, some, List, [], ◌∷◌}
use mhp.Errors.{Error}

-- What `ln.Accept` returns: a connection, or an error, with `ctx.Err()` at that time.
pub data Incoming : Type 0 where
  connects : ℕ → Incoming
  accept_error : Error → Option Error → Incoming

-- `waits` is a call that has not returned.
pub data RunResult : Type 0 where
  waits : RunResult
  fails : Error → RunResult

-- With the connections that it started `serve` for, in order.
unfoldable pub run : List Incoming → RunResult × List ℕ
run [] = (waits, [])
run (connects conn ∷ incoming) = let (result, conns) = run incoming in (result, conn ∷ conns)
run (accept_error e (some cancelled) ∷ incoming) = (fails cancelled, [])
run (accept_error e none ∷ incoming) = (fails e, [])
