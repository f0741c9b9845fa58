-- ===== src/Tunnel/Downstream.antt =====
-- What of the destination's bytes reaches the browser (internal/exit, internal/relay, internal/proxy,
-- internal/stream).
pub mod Tests
use mathlib.Core.List.{append_assoc, flatten}
use mhp.Prelude.{◌^◌, ◌<◌, ◌≡◌, refl, ap, ◌∙◌, Option, some, List, [], ◌++◌, Bytes, length, arith}
use mhp.Errors.{Error}
use mhp.Stream.Duplex.{Finished}
use mhp.Stream.Copy.Pairs.Carries.{carry-down}
use mhp.Proxy.Forward.{no_auth}
use mhp.Relay.Pair
use mhp.Relay.Pair.{Happening, End, bridge_pair}
use mhp.Tunnel.Reaches.{Arrives, first}
use mhp.Tunnel.Hops.{HandsOn, Got, three_hops}
use mhp.Tunnel.{ProxySide, ExitSide, proxy_duplex, forward}

-- The three parts on one connection. The SOCKS server of the exit-node has answered the greeting and
-- then the request, with `reply`; the relay's stream to the proxy is new; each stream between the
-- parts is reliable; and `forwardRequest` has taken the answer to the greeting.
pub record Answered (reply : Bytes) (p : ProxySide) (proxy exit : End) (hs : List Happening)
    (x : ExitSide) : Type 0 where
  pub replied : x.replies.output ≡ no_auth ++ reply
  pub proxy_fresh : proxy.sink.output ≡ []
  pub to_relay :
      Arrives (forward x).down.conn.output (flatten exit.source.chunks) exit.source.end_error
  pub to_proxy :
      Arrives
        (bridge_pair proxy exit hs).carried.down.conn.output
        (no_auth ++ flatten p.returns.chunks)
        p.returns.end_error
  -- an int64 counts the bytes
  pub few_answered : length (flatten x.answers.chunks) < 2 ^ 63
  pub few_relayed : length (flatten exit.source.chunks) < 2 ^ 63
  pub few_returned : length (flatten p.returns.chunks) < 2 ^ 63

forward-HandsOn :
    (reply : Bytes) (x : ExitSide) (f : Finished)
    → x.replies.output ≡ no_auth ++ reply
    → length (flatten x.answers.chunks) < 2 ^ 63
    → (forward x).finished ≡ some f
    → HandsOn
        (reply ++ flatten x.answers.chunks)
        no_auth
        (forward x).down.conn.output
        x.answers.end_error
        f.error
unfolding forward
forward-HandsOn reply x f replied few h =
    let d = carry-down x.stream x.target _ _ x.moments 0 f refl (omega (arith, few)) h in
    record {
      done = reply ++ d.done;
      left = d.left;
      parts = append_assoc reply d.done d.left ∙ ap (λ q. reply ++ q) d.parts;
      output_is = d.output ∙ ap (λ q. q ++ d.done) replied ∙ append_assoc no_auth reply d.done;
      all = d.all;
    }

bridge_pair-HandsOn :
    (proxy exit : End) (hs : List Happening) (f : Finished)
    → proxy.sink.output ≡ []
    → length (flatten exit.source.chunks) < 2 ^ 63
    → (bridge_pair proxy exit hs).carried.finished ≡ some f
    → HandsOn
        (flatten exit.source.chunks)
        []
        (bridge_pair proxy exit hs).carried.down.conn.output
        exit.source.end_error
        f.error
unfolding bridge_pair
bridge_pair-HandsOn proxy exit hs f fresh few h =
    let d =
      carry-down proxy.conn exit.conn (Pair.towards proxy.source exit)
        (Pair.towards exit.source proxy) (Pair.moments hs) 0 f refl (omega (arith, few)) h in
    record {
      done = d.done;
      left = d.left;
      parts = d.parts;
      output_is = d.output ∙ ap (λ q. q ++ d.done) fresh;
      all = d.all;
    }

proxy_duplex-HandsOn :
    (request : Bytes) (p : ProxySide) (f : Finished)
    → length (flatten p.returns.chunks) < 2 ^ 63
    → (proxy_duplex request p).finished ≡ some f
    → HandsOn
        (flatten p.returns.chunks)
        p.takes.output
        (proxy_duplex request p).down.conn.output
        p.returns.end_error
        f.error
unfolding proxy_duplex
proxy_duplex-HandsOn request p f few h =
    let d = carry-down p.browser p.stream _ _ p.moments 0 f refl (omega (arith, few)) h in
    record { done = d.done; left = d.left; parts = d.parts; output_is = d.output; all = d.all }

-- From the destination to the browser, where the parts are connected by new and reliable streams, the
-- exit-node has answered the greeting and the request (Answered), and the three duplexes have
-- returned: the bytes that the browser gets are a prefix of the exit-node's reply to its request and
-- of what the destination sent behind it, in order, whatever the connections cut them into and
-- however the parts ended; and all of them, when each of the three returned nil.
pub downstream-Got :
    (request reply : Bytes) (p : ProxySide) (proxy exit : End) (hs : List Happening) (x : ExitSide)
    (f g h : Finished)
    → Answered reply p proxy exit hs x
    → (proxy_duplex request p).finished ≡ some f
    → (bridge_pair proxy exit hs).carried.finished ≡ some g
    → (forward x).finished ≡ some h
    → Got
        (reply ++ flatten x.answers.chunks)
        p.takes.output
        (proxy_duplex request p).down.conn.output
        (first h.error (first g.error f.error))
downstream-Got request reply p proxy exit hs x f g h a ef eg eh =
    three_hops no_auth _ p.takes.output _ _ _ _ _ x.answers.end_error exit.source.end_error
      p.returns.end_error h.error g.error f.error
      (forward-HandsOn reply x h a.replied a.few_answered eh) a.to_relay
      (bridge_pair-HandsOn proxy exit hs g a.proxy_fresh a.few_relayed eg) a.to_proxy
      (proxy_duplex-HandsOn request p f a.few_returned ef)
