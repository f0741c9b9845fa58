-- ===== src/Stream/Copy/Pairs.antt =====
-- Both workers of `Duplex.Run` with its loop (internal/stream/duplex.go).
pub mod Clean
pub mod Carries
use mathlib.Core.Path.{subst}
use mathlib.Core.List.{flatten}
use mathlib.Core.Option.{some-injective}
use mhp.Prelude.{
  ℕ, ◌+◌, ◌^◌, ◌<◌, ◌≡◌, refl, Bool, true, false, Option, none, some, ap, List, [], ◌∷◌, length,
  Bytes, pos,
}
use mhp.Errors.{Error}
use mhp.Stream.Duplex.{
  Kind, copier, Conn, Turn, result, cancelled, times_out, Returned, loop, Finished, finish, run,
}
use mhp.Stream.Copy.{CounterConn, copy, Direction, work}
use mhp.Stream.Copy.Delivers.{Complete, Delivered, copy-Delivered}

-- What happens while `Run` waits: a worker ends, the context ends, or the timer fires.
pub data Moment : Type 0 where
  up_ends down_ends : Moment
  ctx_ends : Error → Moment
  timer_fires : Moment

-- What the `select` may receive: each worker sends its result once.
abbrev pub turns : Bool → Bool → Option Error → Option Error → List Moment → List Turn
turns up down a b [] = []
turns false down a b (up_ends ∷ ms) = result a ∷ turns true down a b ms
turns true down a b (up_ends ∷ ms) = turns true down a b ms
turns up false a b (down_ends ∷ ms) = result b ∷ turns up true a b ms
turns up true a b (down_ends ∷ ms) = turns up true a b ms
turns up down a b (ctx_ends e ∷ ms) = cancelled e ∷ turns up down a b ms
turns up down a b (timer_fires ∷ ms) = times_out ∷ turns up down a b ms

-- What `Run` returns, and both destinations once the workers are joined.
pub record Carried : Type 0 where
  pub finished : Option Finished
  pub up : CounterConn
  pub down : CounterConn

-- `Run`: `up` copies from the inbound to the outbound connection, `down` the other way.
unfoldable pub carry : Conn → Conn → Direction → Direction → List Moment → Carried
unfolding run work
carry inbound outbound up down moments =
    let (a, x) = work up in
    let (b, y) = work down in
    record { finished = run inbound outbound (turns false false a b moments); up = x; down = y }
