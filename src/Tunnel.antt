-- ===== src/Tunnel.antt =====
-- The way of a connection: the duplex of the proxy (internal/proxy/listener.go), the pair of the relay
-- (internal/relay/bridge.go) and the duplex of the exit-node (internal/exit/handler.go). Of the
-- network between them, a Source says what arrives.
pub mod Reaches
pub mod Hops
pub mod Upstream
pub mod Downstream
pub mod Tests
use mhp.Prelude.{ℕ, ℤ, pos, Option, none, some, List, [], ◌∷◌, ◌++◌, Bytes}
use mhp.Errors.{Error}
use mhp.Transport.Conn
use mhp.Stream.Duplex
use mhp.Stream.Duplex.{Kind, has_close_write, yamux_stream, close_write}
use mhp.Stream.Copy.{Source, Sink, CounterConn, Direction}
use mhp.Stream.Copy.Pairs.{Moment, Carried, carry}
use mhp.Proxy.Forward.{forward_request}
use mhp.Relay.Pair.{Happening, End, Report, bridge_pair}

-- `requestConn` reads through the reader of the SOCKS request, which returns what it has read ahead
-- first. Closing it for writing closes the browser's connection.
unfoldable pub request_conn : Bytes → Source → Source
request_conn ahead s = record s { chunks = ahead ∷ s.chunks }

abbrev pub request_close_write : Option Error → Option Error
request_close_write close_answer = close_answer

-- `payloadConn` reads in the same way. Closing it for writing is `stream.CloseWrite` of its stream.
unfoldable pub payload_conn : Bytes → Source → Source
payload_conn ahead s = record s { chunks = ahead ∷ s.chunks }

abbrev pub payload_close_write : Kind → Option Error → Option Error
payload_close_write kind answer = close_write kind answer

-- A direction over a connection without a counter; its `n` only serves to speak of the bytes.
abbrev pub towards : Source → Kind → Sink → Option Error → Direction
towards source kind sink answer = record {
  source = source;
  kind = kind;
  target = record { conn = sink; n = pos 0 };
  close_answer = answer;
}

-- The proxy's side: the browser's connection with what the request's reader read ahead, and the relay
-- stream, on which `forwardRequest` runs first.
pub record ProxySide : Type 0 where
  pub browser : Duplex.Conn
  pub ahead : Bytes
  pub sends : Source
  pub takes : Sink
  pub close_browser : Option Error
  pub stream : Duplex.Conn
  pub relay_stream : Conn.Conn
  pub returns : Source
  pub close_stream : Option Error
  pub moments : List Moment

-- The relay stream behind `forwardRequest`, which wrote to it.
abbrev pub stream_sink : Conn.Conn → Sink
stream_sink c = record { writes = c.writes; output = c.output }

-- `NewDuplex(&requestConn{...}, relayConn).Run`.
unfoldable pub proxy_duplex : Bytes → ProxySide → Carried
unfolding forward_request request_conn
proxy_duplex request p =
    carry p.browser p.stream
      (towards (request_conn p.ahead p.sends) yamux_stream
        (stream_sink (forward_request request p.relay_stream).1) p.close_stream)
      (towards p.returns has_close_write p.takes (request_close_write p.close_browser)) p.moments

-- The exit's side: the stream of the relay behind the SOCKS negotiation, with what its reader read
-- ahead, and the connection to the destination.
pub record ExitSide : Type 0 where
  pub stream : Duplex.Conn
  pub ahead : Bytes
  pub payload : Source
  pub replies : Sink
  pub close_stream : Option Error
  pub target : Duplex.Conn
  pub answers : Source
  pub gets : Sink
  pub close_target : Option Error
  pub moments : List Moment

-- `forward`.
unfoldable pub forward : ExitSide → Carried
unfolding payload_conn close_write
forward e =
    carry e.stream e.target
      (towards (payload_conn e.ahead e.payload) e.target.kind e.gets e.close_target)
      (towards e.answers has_close_write e.replies
        (payload_close_write e.stream.kind e.close_stream))
      e.moments
