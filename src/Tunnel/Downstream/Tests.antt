-- ===== src/Tunnel/Downstream/Tests.antt =====
-- The answer to a browser's request, through the exit-node, the relay and the proxy.
use mathlib.Core.List.{flatten}
use mhp.Prelude.{◌≡◌, refl, none, some, List, [], ◌∷◌, ◌++◌, Bytes, arith, bytes_eq}
use mhp.Transport.Conn.{full, write, read_full}
use mhp.Stream.Duplex.{run, loop, copier, close_write, force_close}
use mhp.Stream.Copy.{copy, work, counter_write, sink_write}
use mhp.Stream.Copy.Pairs.{up_ends, down_ends, carry}
use mhp.Proxy.Forward.{no_auth, write_full}
use mhp.Relay.Pair.{Happening, proxy_ends, exit_ends, End, bridge_pair}
use mhp.Tunnel.{ProxySide, ExitSide, request_conn, payload_conn, proxy_duplex, forward}
use mhp.Tunnel.Hops.{Got}
use mhp.Tunnel.Downstream.{Answered, downstream-Got}
use mhp.Tunnel.Tests.{conn, request, nothing, empty, clean, proxy_side, exit_side}

-- What the SOCKS server answers to the request.
abbrev reply : Bytes
reply = 5 ∷ 0 ∷ 0 ∷ 1 ∷ []

-- The destination sends three bytes.
abbrev answering : ExitSide
answering = record exit_side {
  payload = nothing;
  replies = record { writes = full ∷ []; output = no_auth ++ reply };
  answers = record { chunks = (81 ∷ []) ∷ (82 ∷ 83 ∷ []) ∷ []; end_error = none };
  moments = down_ends ∷ up_ends ∷ [];
}

-- The relay reads them in other pieces.
abbrev exit : End
exit = record {
  conn = conn;
  source = record { chunks = no_auth ∷ reply ∷ (81 ∷ 82 ∷ []) ∷ (83 ∷ []) ∷ []; end_error = none };
  sink = empty;
  close_answer = none;
}

abbrev proxy : End
proxy = record { conn = conn; source = nothing; sink = empty; close_answer = none }

abbrev both : List Happening
both = exit_ends ∷ proxy_ends ∷ []

abbrev answered : ProxySide
answered = record proxy_side {
  sends = nothing;
  returns = record { chunks = reply ∷ (81 ∷ 82 ∷ 83 ∷ []) ∷ []; end_error = none };
}

exit_finished : (forward answering).finished ≡ some clean
unfolding forward carry run loop work copier close_write force_close copy counter_write sink_write
    payload_conn
exit_finished = refl

relay_finished : (bridge_pair proxy exit both).carried.finished ≡ some clean
unfolding bridge_pair carry run loop work copier close_write force_close copy counter_write
    sink_write
relay_finished = refl

proxy_finished : (proxy_duplex request answered).finished ≡ some clean
unfolding proxy_duplex carry run loop work copier close_write force_close copy counter_write
    sink_write request_conn write_full write read_full bytes_eq
proxy_finished = refl

reply-Answered : Answered reply answered proxy exit both answering
unfolding forward bridge_pair carry work copy counter_write sink_write payload_conn flatten
reply-Answered = record {
  replied = refl;
  proxy_fresh = refl;
  to_relay = record { lost = []; parts = refl; all = refl };
  to_proxy = record { lost = []; parts = refl; all = refl };
  few_answered = omega arith;
  few_relayed = omega arith;
  few_returned = omega arith;
}

downstream-Got_example :
    Got (reply ++ (81 ∷ 82 ∷ 83 ∷ [])) [] (proxy_duplex request answered).down.conn.output none
unfolding flatten
downstream-Got_example =
    downstream-Got request reply answered proxy exit both answering clean clean clean reply-Answered
      proxy_finished relay_finished exit_finished
