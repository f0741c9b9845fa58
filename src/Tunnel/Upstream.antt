-- ===== src/Tunnel/Upstream.antt =====
-- What of the browser's bytes reaches the destination (internal/proxy, internal/relay, internal/exit,
-- internal/stream).
use mathlib.Core.List.{flatten}
use mhp.Prelude.{◌^◌, ◌<◌, ◌≡◌, refl, ap, ◌∙◌, some, List, [], ◌++◌, Bytes, length, All, arith}
use mhp.Stream.Duplex.{Finished}
use mhp.Stream.Copy.Pairs.Carries.{carry-up}
use mhp.Proxy.Forward.{greeting, no_auth}
use mhp.Proxy.Forward.Progress.{Progress, forward_request-Progress}
use mhp.Relay.Pair
use mhp.Relay.Pair.{Happening, End, bridge_pair}
use mhp.Tunnel.Reaches.{Arrives, first}
use mhp.Tunnel.Hops.{HandsOn, Got, three_hops}
use mhp.Tunnel.{ProxySide, ExitSide, request_conn, payload_conn, proxy_duplex, forward}

-- The three parts on one connection. The relay stream and the stream to the exit-node are new; the
-- exit-node has answered the greeting; each stream between the parts is reliable; and the SOCKS server
-- of the exit-node has taken the greeting and the request from the front of its stream.
pub record Connected (request : Bytes) (p : ProxySide) (proxy exit : End) (hs : List Happening)
    (x : ExitSide) : Type 0 where
  pub stream_fresh : p.relay_stream.output ≡ []
  pub stream_progress : All Progress p.relay_stream.writes
  pub rest : Bytes
  pub replied : p.relay_stream.input ≡ no_auth ++ rest
  pub exit_fresh : exit.sink.output ≡ []
  pub to_relay :
      Arrives
        (proxy_duplex request p).up.conn.output
        (flatten proxy.source.chunks)
        proxy.source.end_error
  pub to_exit :
      Arrives
        (bridge_pair proxy exit hs).carried.up.conn.output
        ((greeting ++ request) ++ (x.ahead ++ flatten x.payload.chunks))
        x.payload.end_error
  -- an int64 counts the bytes
  pub few_sent : length (p.ahead ++ flatten p.sends.chunks) < 2 ^ 63
  pub few_relayed : length (flatten proxy.source.chunks) < 2 ^ 63
  pub few_taken : length (x.ahead ++ flatten x.payload.chunks) < 2 ^ 63

proxy_duplex-HandsOn :
    (request : Bytes) (p : ProxySide) (rest : Bytes) (f : Finished)
    → All Progress p.relay_stream.writes
    → p.relay_stream.output ≡ []
    → p.relay_stream.input ≡ no_auth ++ rest
    → length (p.ahead ++ flatten p.sends.chunks) < 2 ^ 63
    → (proxy_duplex request p).finished ≡ some f
    → HandsOn
        (p.ahead ++ flatten p.sends.chunks)
        (greeting ++ request)
        (proxy_duplex request p).up.conn.output
        p.sends.end_error
        f.error
unfolding proxy_duplex request_conn flatten
proxy_duplex-HandsOn request p rest f progress fresh replied few h =
    let d = carry-up p.browser p.stream _ _ p.moments 0 f refl (omega (arith, few)) h in
    let (sent, output, input) =
      forward_request-Progress request rest p.relay_stream progress replied in
    record {
      done = d.done;
      left = d.left;
      parts = d.parts;
      output_is =
          d.output ∙ ap (λ q. q ++ d.done) (output ∙ ap (λ q. q ++ (greeting ++ request)) fresh);
      all = d.all;
    }

bridge_pair-HandsOn :
    (proxy exit : End) (hs : List Happening) (f : Finished)
    → exit.sink.output ≡ []
    → length (flatten proxy.source.chunks) < 2 ^ 63
    → (bridge_pair proxy exit hs).carried.finished ≡ some f
    → HandsOn
        (flatten proxy.source.chunks)
        []
        (bridge_pair proxy exit hs).carried.up.conn.output
        proxy.source.end_error
        f.error
unfolding bridge_pair
bridge_pair-HandsOn proxy exit hs f fresh few h =
    let d =
      carry-up proxy.conn exit.conn (Pair.towards proxy.source exit)
        (Pair.towards exit.source proxy) (Pair.moments hs) 0 f refl (omega (arith, few)) h in
    record {
      done = d.done;
      left = d.left;
      parts = d.parts;
      output_is = d.output ∙ ap (λ q. q ++ d.done) fresh;
      all = d.all;
    }

forward-HandsOn :
    (x : ExitSide) (f : Finished)
    → length (x.ahead ++ flatten x.payload.chunks) < 2 ^ 63
    → (forward x).finished ≡ some f
    → HandsOn
        (x.ahead ++ flatten x.payload.chunks)
        x.gets.output
        (forward x).up.conn.output
        x.payload.end_error
        f.error
unfolding forward payload_conn flatten
forward-HandsOn x f few h =
    let d = carry-up x.stream x.target _ _ x.moments 0 f refl (omega (arith, few)) h in
    record { done = d.done; left = d.left; parts = d.parts; output_is = d.output; all = d.all }

-- From the browser to the destination, where the parts are connected by new and reliable streams, the
-- exit-node has answered the greeting and taken the request (Connected), and the three duplexes have
-- returned: the bytes that the destination gets are a prefix of those that the browser sent behind
-- its request, in order, whatever the connections cut them into and however the parts ended; and all
-- of them, when each of the three returned nil.
pub upstream-Got :
    (request : Bytes) (p : ProxySide) (proxy exit : End) (hs : List Happening) (x : ExitSide)
    (f g h : Finished)
    → Connected request p proxy exit hs x
    → (proxy_duplex request p).finished ≡ some f
    → (bridge_pair proxy exit hs).carried.finished ≡ some g
    → (forward x).finished ≡ some h
    → Got
        (p.ahead ++ flatten p.sends.chunks)
        x.gets.output
        (forward x).up.conn.output
        (first f.error (first g.error h.error))
upstream-Got request p proxy exit hs x f g h c ef eg eh =
    three_hops (greeting ++ request) _ x.gets.output _ _ _ _ _ p.sends.end_error
      proxy.source.end_error x.payload.end_error f.error g.error h.error
      (proxy_duplex-HandsOn request p c.rest f c.stream_progress c.stream_fresh c.replied c.few_sent
        ef)
      c.to_relay (bridge_pair-HandsOn proxy exit hs g c.exit_fresh c.few_relayed eg) c.to_exit
      (forward-HandsOn x h c.few_taken eh)
