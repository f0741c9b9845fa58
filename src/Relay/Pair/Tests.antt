-- ===== src/Relay/Pair/Tests.antt =====
-- A pair of the relay at concrete inputs.
use mathlib.Core.List.{flatten}
use mhp.Prelude.{◌≡◌, refl, true, false, pos, add64, none, some, List, [], ◌∷◌, arith}
use mhp.Errors.{sentinel, canceled}
use mhp.Transport.Conn.{full, short}
use mhp.Stream.Duplex.{Conn, has_close_write, Finished, run, loop, copier, close_write, force_close}
use mhp.Stream.Copy.{copy, work, counter_write, sink_write}
use mhp.Stream.Copy.Pairs.{carry}
use mhp.Relay.Pair.{Happening, proxy_ends, exit_ends, wakes, proxy_session_closes, End, bridge_pair}
use mhp.Relay.Pair.Reports.{Reported, bridge_pair-Reported}

abbrev conn : Conn
conn = record { kind = has_close_write; deadline_past = false; closed = false }

abbrev shut : Conn
shut = record conn { deadline_past = true; closed = true }

-- The proxy sends three bytes, the exit two; the first Write towards the proxy takes one byte.
abbrev proxy : End
proxy = record {
  conn = conn;
  source = record { chunks = (1 ∷ 2 ∷ []) ∷ (3 ∷ []) ∷ []; end_error = none };
  sink = record { writes = short 1 ∷ []; output = [] };
  close_answer = none;
}

abbrev exit : End
exit = record {
  conn = conn;
  source = record { chunks = (4 ∷ 5 ∷ []) ∷ []; end_error = none };
  sink = record { writes = full ∷ []; output = 9 ∷ [] };
  close_answer = none;
}

-- The session of the proxy closes when the stream of the proxy has ended.
abbrev torn : List Happening
torn = proxy_ends ∷ wakes proxy_session_closes ∷ exit_ends ∷ []

abbrev cancelled : Finished
cancelled = record {
  error = some (sentinel canceled);
  received = none ∷ [];
  drained = 1;
  inbound = shut;
  outbound = shut;
}

torn_finished : (bridge_pair proxy exit torn).carried.finished ≡ some cancelled
unfolding bridge_pair carry run loop work copier close_write force_close copy counter_write
    sink_write
torn_finished = refl

torn_logged :
    ((bridge_pair proxy exit torn).bytes_proxy_to_exit ≡ pos 3)
    × ((bridge_pair proxy exit torn).bytes_exit_to_proxy ≡ pos 1)
unfolding bridge_pair carry run work copy counter_write sink_write add64
torn_logged = (refl, refl)

bridge_pair-Reported_example :
    let r = bridge_pair proxy exit torn in
    Reported proxy.source exit r.bytes_proxy_to_exit r.carried.up.conn.output
      (some (sentinel canceled))
    × Reported exit.source proxy r.bytes_exit_to_proxy r.carried.down.conn.output
        (some (sentinel canceled))
unfolding flatten
bridge_pair-Reported_example =
    bridge_pair-Reported proxy exit torn cancelled (omega arith) (omega arith) torn_finished
