-- ===== src/Tunnel/Tests.antt =====
-- A browser's connection through the proxy, the relay and the exit-node.
use mathlib.Core.List.{flatten}
use mhp.Prelude.{◌≡◌, refl, true, false, none, some, List, [], ◌∷◌, ◌++◌, Bytes, arith, bytes_eq}
use mhp.Errors.{sentinel, eof, canceled, net_closed}
use mhp.Transport.Conn.{full, short, write, read_full}
use mhp.Transport.Conn
use mhp.Stream.Duplex.{
  has_close_write, yamux_stream, Finished, run, loop, copier, close_write, force_close,
}
use mhp.Stream.Duplex
use mhp.Stream.Copy.{Source, Sink, copy, work, counter_write, sink_write}
use mhp.Stream.Copy.Pairs.{up_ends, down_ends, carry}
use mhp.Proxy.Forward.{greeting, forward_request, write_full, write_rounds}
use mhp.Relay.Pair.{Happening, proxy_ends, wakes, proxy_session_closes, End, bridge_pair}
use mhp.Tunnel.{ProxySide, ExitSide, request_conn, payload_conn, proxy_duplex, forward}
use mhp.Tunnel.Hops.{Got}
use mhp.Tunnel.Upstream.{Connected, upstream-Got}

abbrev pub conn : Duplex.Conn
conn = record { kind = has_close_write; deadline_past = false; closed = false }

abbrev shut : Duplex.Conn
shut = record conn { deadline_past = true; closed = true }

abbrev pub request : Bytes
request = 5 ∷ 1 ∷ 0 ∷ 1 ∷ 8 ∷ 8 ∷ 8 ∷ 8 ∷ 0 ∷ 80 ∷ []

abbrev pub nothing : Source
nothing = record { chunks = []; end_error = none }

abbrev pub empty : Sink
empty = record { writes = []; output = [] }

abbrev pub stream : Conn.Conn
stream = record {
  input = 5 ∷ 0 ∷ [];
  input_end = sentinel eof;
  writes = short 2 ∷ [];
  output = [];
  deadline = none;
  deadlines = [];
  closed = false;
}

-- The first of three bytes of the browser was read ahead; everybody ends cleanly.
abbrev pub proxy_side : ProxySide
proxy_side = record {
  browser = conn;
  ahead = 71 ∷ [];
  sends = record { chunks = (72 ∷ 73 ∷ []) ∷ []; end_error = none };
  takes = empty;
  close_browser = none;
  stream = conn;
  relay_stream = stream;
  returns = nothing;
  close_stream = none;
  moments = up_ends ∷ down_ends ∷ [];
}

-- The relay's end of the proxy's stream: the bytes arrive in two pieces.
abbrev proxy : End
proxy = record {
  conn = conn;
  source = record { chunks = (greeting ++ request) ∷ (71 ∷ 72 ∷ 73 ∷ []) ∷ []; end_error = none };
  sink = empty;
  close_answer = none;
}

-- The session of the proxy closes before the relay's pair has ended its second direction.
abbrev exit : End
exit = record { conn = conn; source = nothing; sink = empty; close_answer = none }

abbrev torn : List Happening
torn = proxy_ends ∷ wakes proxy_session_closes ∷ []

-- The last byte is lost.
abbrev pub exit_side : ExitSide
exit_side = record {
  stream = conn;
  ahead = [];
  payload = record { chunks = (71 ∷ 72 ∷ []) ∷ []; end_error = some (sentinel net_closed) };
  replies = empty;
  close_stream = none;
  target = conn;
  answers = nothing;
  gets = empty;
  close_target = none;
  moments = up_ends ∷ [];
}

abbrev pub clean : Finished
clean = record {
  error = none;
  received = none ∷ none ∷ [];
  drained = 0;
  inbound = shut;
  outbound = shut;
}

abbrev cancelled : Finished
cancelled = record {
  error = some (sentinel canceled);
  received = none ∷ [];
  drained = 1;
  inbound = shut;
  outbound = shut;
}

abbrev failed : Finished
failed = record {
  error = some (sentinel net_closed);
  received = some (sentinel net_closed) ∷ [];
  drained = 1;
  inbound = shut;
  outbound = shut;
}

proxy_finished : (proxy_duplex request proxy_side).finished ≡ some clean
unfolding proxy_duplex carry run loop work copier close_write force_close copy counter_write
    sink_write request_conn write_full write read_full bytes_eq
proxy_finished = refl

relay_finished : (bridge_pair proxy exit torn).carried.finished ≡ some cancelled
unfolding bridge_pair carry run loop work copier close_write force_close copy counter_write
    sink_write
relay_finished = refl

exit_finished : (forward exit_side).finished ≡ some failed
unfolding forward carry run loop work copier close_write force_close copy counter_write sink_write
    payload_conn
exit_finished = refl

connected : Connected request proxy_side proxy exit torn exit_side
unfolding proxy_duplex bridge_pair carry work copy counter_write sink_write request_conn flatten
    forward_request write_full write_rounds write read_full bytes_eq
connected = record {
  stream_fresh = refl;
  stream_progress = (omega arith, tt);
  rest = [];
  replied = refl;
  exit_fresh = refl;
  to_relay = record { lost = []; parts = refl; all = refl };
  to_exit = record { lost = 73 ∷ []; parts = refl; all = tt };
  few_sent = omega arith;
  few_relayed = omega arith;
  few_taken = omega arith;
}

upstream-Got_example :
    Got (71 ∷ 72 ∷ 73 ∷ []) [] (forward exit_side).up.conn.output (some (sentinel canceled))
unfolding flatten
upstream-Got_example =
    upstream-Got request proxy_side proxy exit torn exit_side clean cancelled failed connected
      proxy_finished relay_finished exit_finished
