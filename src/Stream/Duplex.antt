-- ===== src/Stream/Duplex.antt =====
-- internal/stream/duplex.go: copying in both directions. What `io.Copy`, the closing calls, the
-- context and the timer do is the sequence of what the `select` of `Run` receives.
pub mod Ends
pub mod Tests
use mhp.Prelude.{
  ℕ, zero, suc, Bool, true, false, Option, none, some, List, [], ◌∷◌, ◌++◌, ◌&&◌, ◌||◌,
  if◌then◌else◌,
}
use mhp.Errors.{Error, sentinel, drain_timeout}

-- What `CloseWrite` distinguishes by type assertions; an Adapter and a `*net.TCPConn` have the
-- method.
pub data Kind : Type 0 where
  has_close_write yamux_stream plain : Kind

pub record Conn : Type 0 where
  pub kind : Kind
  pub deadline_past : Bool
  pub closed : Bool

-- `CloseWrite`, with the answer of the connection's own method.
unfoldable pub close_write : Kind → Option Error → Option Error
close_write has_close_write answer = answer
close_write yamux_stream answer = answer
close_write plain answer = none

-- What a `copier` sends: the error of `io.Copy`, or the result of `CloseWrite` at the other end.
unfoldable pub copier : Kind → Option Error → Option Error → Option Error
unfolding close_write
copier to (some e) answer = some e
copier to none answer = close_write to answer

-- What the `select` may receive.
pub data Turn : Type 0 where
  result : Option Error → Turn
  cancelled : Error → Turn
  times_out : Turn

-- What `Run` returns, the results that its loop received, in order, the workers that run on, and
-- what would have been received next.
pub record Returned : Type 0 where
  pub error : Option Error
  pub received : List (Option Error)
  pub remaining : ℕ
  pub rest : List Turn

-- The loop, while `remaining` workers run; the channel of the timer is nil until it is armed.
-- `none`: the loop still waits.
unfoldable pub loop : ℕ → Bool → List (Option Error) → List Turn → Option Returned
loop zero armed received turns =
    some (record { error = none; received = received; remaining = 0; rest = turns })
loop (suc n) armed received [] = none
loop (suc n) armed received (result (some e) ∷ turns) =
    some
      (record { error = some e; received = received ++ (some e ∷ []); remaining = n; rest = turns })
loop (suc n) armed received (result none ∷ turns) = loop n true (received ++ (none ∷ [])) turns
loop (suc n) armed received (cancelled e ∷ turns) =
    some (record { error = some e; received = received; remaining = suc n; rest = turns })
loop (suc n) true received (times_out ∷ turns) = some (record {
  error = some (sentinel drain_timeout);
  received = received;
  remaining = suc n;
  rest = turns;
})
loop (suc n) false received (times_out ∷ turns) = loop (suc n) false received turns

unfoldable pub force_close : Conn → Conn
force_close c = record c { deadline_past = true; closed = true }

-- So many results come from the peers alone.
abbrev pub sent : ℕ → List Turn → Bool
sent zero turns = true
sent (suc n) [] = false
sent (suc n) (result r ∷ turns) = sent n turns
sent (suc n) (cancelled e ∷ turns) = sent (suc n) turns
sent (suc n) (times_out ∷ turns) = sent (suc n) turns

-- The deferred loop receives the results of the workers that run on. It blocks: a worker reads one
-- connection and writes the other, and unless both are past their deadline, which `net.Conn` documents
-- to end a Read and a Write that wait, it ends only when its peers let it. The Close alone of a yamux
-- stream is a write-side FIN and ends no Read.
abbrev pub joins : Conn → Conn → ℕ → List Turn → Bool
joins inbound outbound remaining turns =
    (inbound.deadline_past && outbound.deadline_past) || sent remaining turns

pub record Finished : Type 0 where
  pub error : Option Error
  pub received : List (Option Error)
  -- the results that the deferred loop takes from the workers that were running
  pub drained : ℕ
  pub inbound : Conn
  pub outbound : Conn

-- The deferred calls: `forceClose`, and the loop that joins the workers. `none`: it still waits.
abbrev pub finish : Conn → Conn → Option Returned → Option Finished
finish inbound outbound none = none
finish inbound outbound (some r) =
    let x = force_close inbound in
    let y = force_close outbound in
    if joins x y r.remaining r.rest
    then some (record {
      error = r.error;
      received = r.received;
      drained = r.remaining;
      inbound = x;
      outbound = y;
    })
    else none

unfoldable pub run : Conn → Conn → List Turn → Option Finished
unfolding loop force_close
run inbound outbound turns = finish inbound outbound (loop 2 false [] turns)
