-- ===== src/Relay/Pair/Reports.antt =====
-- What the relay's log says of a pair, and when a pair ends (internal/relay/bridge.go).
use mathlib.Core.List.{flatten}
use mhp.Prelude.{
  ◌^◌, ◌<◌, ◌≡◌, refl, ap, ◌∙◌, ℤ, pos, Option, some, List, ◌∷◌, ◌++◌, Bytes, length, arith,
}
use mhp.Errors.{Error}
use mhp.Stream.Duplex.{Turn, cancelled, Finished}
use mhp.Stream.Copy.{Source, CounterConn}
use mhp.Stream.Copy.Delivers.{Complete, Delivered}
use mhp.Stream.Copy.Pairs.{turns}
use mhp.Stream.Copy.Pairs.Carries.{carry-Delivered}
use mhp.Relay.Pair.{Happening, moments, End, towards, bridge_pair}

-- One direction of a pair, in the log and in fact: a prefix of what one end sent has reached the other
-- end, and its length is what is logged; all of it, up to EOF, when the duplex returned nil.
pub record Reported (from : Source) (to : End) (logged : ℤ) (output : Bytes) (error : Option Error)
    : Type 0 where
  pub done : Bytes
  pub left : Bytes
  pub parts : done ++ left ≡ flatten from.chunks
  pub arrived : output ≡ to.sink.output ++ done
  pub count : logged ≡ pos (length done)
  pub all : Complete error left from.end_error

Reported-Delivered :
    (from : Source) (to : End) (error : Option Error) (c : CounterConn)
    → Delivered (flatten from.chunks) to.sink.output 0 from.end_error (error, c)
    → Reported from to c.n c.conn.output error
Reported-Delivered from to error c d = record {
  done = d.done;
  left = d.left;
  parts = d.parts;
  arrived = d.output;
  count = d.count ∙ ap pos (omega arith);
  all = d.all;
}

-- When the duplex of a pair has returned, both ends having sent less than 2^63 bytes: in each
-- direction the bytes that arrived are a prefix of those sent, whatever the Writes took and whatever
-- ended the pair; the log counts exactly the bytes that arrived; and they are all, up to EOF, if
-- the duplex returned nil.
pub bridge_pair-Reported :
    (proxy exit : End) (hs : List Happening) (f : Finished)
    → length (flatten proxy.source.chunks) < 2 ^ 63
    → length (flatten exit.source.chunks) < 2 ^ 63
    → (bridge_pair proxy exit hs).carried.finished ≡ some f
    → let r = bridge_pair proxy exit hs in
      Reported proxy.source exit r.bytes_proxy_to_exit r.carried.up.conn.output f.error
      × Reported exit.source proxy r.bytes_exit_to_proxy r.carried.down.conn.output f.error
unfolding bridge_pair
bridge_pair-Reported proxy exit hs f p q h =
    let (up, down) =
      carry-Delivered proxy.conn exit.conn (towards proxy.source exit) (towards exit.source proxy)
        (moments hs) 0 0 f refl (omega (arith, p)) refl (omega (arith, q)) h in
    (
      Reported-Delivered proxy.source exit f.error _ up,
      Reported-Delivered exit.source proxy f.error _ down,
    )

-- What the loop receives up to the end of the context.
record Cancels (turns : List Turn) (e : Error) : Type 0 where
  before : List Turn
  after : List Turn
  split : turns ≡ before ++ cancelled e ∷ after
