-- ===== src/Stream/Copy.antt =====
-- The copying of one direction: `io.Copy` as internal/stream/duplex.go uses it, and the counter that
-- internal/relay/bridge.go puts around the destination.
pub mod Delivers
pub mod Pairs
pub mod Tests
use mhp.Prelude.{
  ℕ, zero, suc, ℤ, pos, add64, Bool, true, false, ◌==◌, Option, none, some, List, [], ◌∷◌, ◌++◌,
  Bytes, length, take, if◌then◌else◌,
}
use mhp.Errors.{Error, sentinel, io_short_write}
use mhp.Transport.Conn.{WriteOutcome, full, short, fails}
use mhp.Stream.Duplex.{Kind, copier}

-- What a connection delivers: what its Reads return in turn, and the error behind them, where `none`
-- is `io.EOF`.
pub record Source : Type 0 where
  pub chunks : List Bytes
  pub end_error : Option Error

-- Where a connection's Writes go: what the next ones do, and what was taken.
pub record Sink : Type 0 where
  pub writes : List WriteOutcome
  pub output : Bytes

abbrev pub sink_written : Bytes → Bytes → List WriteOutcome → (ℕ × Option Error) × Sink
sink_written p out [] = ((length p, none), record { writes = []; output = out ++ p })
sink_written p out (full ∷ ws) = ((length p, none), record { writes = ws; output = out ++ p })
sink_written p out (short k ∷ ws) =
    ((length (take k p), none), record { writes = ws; output = out ++ take k p })
sink_written p out (fails k e ∷ ws) =
    ((length (take k p), some e), record { writes = ws; output = out ++ take k p })

-- `Write`: the number of bytes written, and the error.
unfoldable pub sink_write : Bytes → Sink → (ℕ × Option Error) × Sink
sink_write p s = sink_written p s.output s.writes

-- `counterConn`.
pub record CounterConn : Type 0 where
  pub conn : Sink
  pub n : ℤ  -- int64

abbrev pub counted : ℤ → (ℕ × Option Error) × Sink → (ℕ × Option Error) × CounterConn
counted n ((written, e), s) = ((written, e), record { conn = s; n = add64 n (pos written) })

-- `counterConn.Write`.
unfoldable pub counter_write : Bytes → CounterConn → (ℕ × Option Error) × CounterConn
unfolding sink_write
counter_write p c = counted c.n (sink_write p c.conn)

-- A turn of the loop of `io.Copy`, behind its Write; `rest` goes on with the next chunk.
abbrev pub written_turn :
    ℕ
    → (ℕ × Option Error) × CounterConn
    → (CounterConn → Option Error × CounterConn)
    → Option Error × CounterConn
written_turn len ((nw, some e), c) rest = (some e, c)
written_turn len ((nw, none), c) rest =
    if nw == len then rest c else (some (sentinel io_short_write), c)

-- `io.Copy`: nothing is written where a Read returned nothing.
unfoldable pub copy : List Bytes → Option Error → CounterConn → Option Error × CounterConn
unfolding counter_write
copy [] end_error c = (end_error, c)
copy ([] ∷ chunks) end_error c = copy chunks end_error c
copy ((b ∷ bs) ∷ chunks) end_error c =
    written_turn (length (b ∷ bs)) (counter_write (b ∷ bs) c) (λ d. copy chunks end_error d)

-- One direction of a pair: its source, the destination with its kind, and the answer of the
-- destination's CloseWrite.
pub record Direction : Type 0 where
  pub source : Source
  pub kind : Kind
  pub target : CounterConn
  pub close_answer : Option Error

-- What the worker of a direction does: the result that it sends, and the destination afterwards.
unfoldable pub work : Direction → Option Error × CounterConn
work d =
    let (e, c) = copy d.source.chunks d.source.end_error d.target in
    (copier d.kind e d.close_answer, c)
