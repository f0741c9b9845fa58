-- ===== src/Proxy/Bridge/Closes.antt =====
-- What the proxy sends to the exit, and what it closes (internal/proxy/listener.go).
use mhp.Prelude.{ℕ, ◌≡◌, refl, true, Bool, Option, none, some, ◌++◌, Bytes, All}
use mhp.Errors.{Error, Result, ok, err}
use mhp.Transport.Conn.{Conn}
use mhp.Proxy.Forward.{greeting, no_auth, forward_request}
use mhp.Proxy.Forward.Progress.{Progress, forward_request-Progress}
use mhp.Proxy.Bridge.{closed_by, copied, opened, bridge}

-- No relay stream, or a closed one.
abbrev pub is_closed : Option Conn → Bool
is_closed none = true
is_closed (some c) = c.closed

copied-is_closed :
    (duplex : Option Error) (r : Result (Unit {0}) × Conn)
    → is_closed (copied duplex r).relay_conn ≡ true
copied-is_closed duplex (ok u, c) = refl
copied-is_closed duplex (err e, c) = refl

opened-is_closed :
    (request : Bytes) (duplex : Option Error) (s : Result Conn)
    → is_closed (opened request duplex s).relay_conn ≡ true
opened-is_closed request duplex (err e) = refl
opened-is_closed request duplex (ok c) = copied-is_closed duplex (forward_request request c)

-- A relay stream that `bridge` opened is closed when it returns, on every path.
pub bridge-is_closed :
    (link : Option ℕ) (s : Result Conn) (request : Bytes) (duplex : Option Error)
    → is_closed (bridge link s request duplex).relay_conn ≡ true
unfolding bridge
bridge-is_closed none s request duplex = refl
bridge-is_closed (some link) s request duplex = opened-is_closed request duplex s

copied-ok :
    (duplex : Option Error) (r : Result (Unit {0})) (c : Conn)
    → r ≡ ok tt
    → copied duplex (r, c)
      ≡ record { error = duplex; relay_conn = some (closed_by c); copied = true }
copied-ok duplex (ok u) c h = refl
copied-ok duplex (err e) c h = cc

-- Once the exit has answered the greeting, over a relay stream that takes the bytes in pieces of any
-- size: `bridge` runs the duplex behind the greeting, the request and the method reply, returns the
-- duplex's error, and closes the stream.
pub bridge-Progress :
    (link : ℕ) (c : Conn) (request rest : Bytes) (duplex : Option Error)
    → All Progress c.writes
    → c.input ≡ no_auth ++ rest
    → let d = (forward_request request c).1 in
      (bridge (some link) (ok c) request duplex
        ≡ record { error = duplex; relay_conn = some (closed_by d); copied = true })
      × (d.output ≡ c.output ++ (greeting ++ request))
      × (d.input ≡ rest)
unfolding bridge
bridge-Progress link c request rest duplex p e =
    let (sent, output, input) = forward_request-Progress request rest c p e in
    (
      copied-ok duplex (forward_request request c).0 (forward_request request c).1 sent,
      output,
      input,
    )
