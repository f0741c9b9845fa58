-- ===== src/Stream/Copy/Tests.antt =====
-- Copying at concrete inputs.
use mathlib.Core.List.{flatten}
use mhp.Prelude.{◌≡◌, refl, true, false, pos, none, some, [], ◌∷◌, arith}
use mhp.Errors.{sentinel, io_short_write}
use mhp.Transport.Conn.{full, short}
use mhp.Stream.Duplex.{
  Conn, Finished, has_close_write, plain, run, loop, copier, close_write, force_close,
}
use mhp.Stream.Copy.{copy, Direction, work, counter_write, sink_write}
use mhp.Stream.Copy.Delivers.{Delivered}
use mhp.Stream.Copy.Pairs.{up_ends, down_ends, carry}
use mhp.Stream.Copy.Pairs.Carries.{carry-Delivered}

abbrev conn : Conn
conn = record { kind = has_close_write; deadline_past = false; closed = false }

abbrev shut : Conn
shut = record conn { deadline_past = true; closed = true }

-- A request in two pieces, on a stream that has carried a byte before.
abbrev request : Direction
request = record {
  source = record { chunks = (1 ∷ 2 ∷ []) ∷ [] ∷ (3 ∷ []) ∷ []; end_error = none };
  kind = has_close_write;
  target = record { conn = record { writes = full ∷ []; output = 9 ∷ [] }; n = pos 1 };
  close_answer = none;
}

-- An answer of which a Write takes one byte only.
abbrev answer : Direction
answer = record {
  source = record { chunks = (4 ∷ 5 ∷ []) ∷ []; end_error = none };
  kind = plain;
  target = record { conn = record { writes = short 1 ∷ []; output = [] }; n = pos 0 };
  close_answer = none;
}

abbrev failed : Finished
failed = record {
  error = some (sentinel io_short_write);
  received = none ∷ some (sentinel io_short_write) ∷ [];
  drained = 0;
  inbound = shut;
  outbound = shut;
}

carry_failed : (carry conn conn request answer (up_ends ∷ down_ends ∷ [])).finished ≡ some failed
unfolding carry run loop work copier close_write force_close copy counter_write sink_write
carry_failed = refl

carry_output : (carry conn conn request answer []).up.conn.output ≡ 9 ∷ 1 ∷ 2 ∷ 3 ∷ []
unfolding carry run work copy counter_write sink_write
carry_output = refl

carry-Delivered_example :
    Delivered (1 ∷ 2 ∷ 3 ∷ []) (9 ∷ []) 1 none (
      some (sentinel io_short_write),
      (carry conn conn request answer (up_ends ∷ down_ends ∷ [])).up,
    )
    × Delivered (4 ∷ 5 ∷ []) [] 0 none (
      some (sentinel io_short_write),
      (carry conn conn request answer (up_ends ∷ down_ends ∷ [])).down,
    )
unfolding flatten
carry-Delivered_example =
    carry-Delivered conn conn request answer (up_ends ∷ down_ends ∷ []) 1 0 failed refl
      (omega arith) refl (omega arith) carry_failed
