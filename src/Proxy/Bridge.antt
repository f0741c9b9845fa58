-- ===== src/Proxy/Bridge.antt =====
-- internal/proxy/listener.go: `bridge`, from the relay session to the duplex.
pub mod Closes
pub mod Tests
use mhp.Prelude.{ℕ, Bool, true, false, Option, none, some, Bytes}
use mhp.Errors.{Error, Result, ok, err, sentinel, other, wrap}
use mhp.Transport.Conn.{Conn}
use mhp.Proxy.Forward.{forward_request}

-- The error of `bridge`, and what it left of the relay stream, if it opened one, with whether the
-- duplex ran on it.
pub record Bridged : Type 0 where
  pub error : Option Error
  pub relay_conn : Option Conn
  pub copied : Bool

-- The deferred `relayConn.Close()`.
abbrev pub closed_by : Conn → Conn
closed_by c = record c { closed = true }

abbrev pub copied : Option Error → Result (Unit {0}) × Conn → Bridged
copied duplex (err e, c) = record {
  error = some e;
  relay_conn = some (closed_by c);
  copied = false;
}
copied duplex (ok u, c) = record { error = duplex; relay_conn = some (closed_by c); copied = true }

abbrev pub opened : Bytes → Option Error → Result Conn → Bridged
opened request duplex (err e) = record {
  error = some (wrap "proxy: open relay stream" e);
  relay_conn = none;
  copied = false;
}
opened request duplex (ok c) = copied duplex (forward_request request c)

-- `link` is `l.connector.Snapshot()`, `open_stream` what `link.Session.OpenStream()` returns, and
-- `duplex` the result of the duplex.
unfoldable pub bridge : Option ℕ → Result Conn → Bytes → Option Error → Bridged
bridge none open_stream request duplex = record {
  error = some (sentinel (other 3));
  relay_conn = none;
  copied = false;
}
bridge (some link) open_stream request duplex = opened request duplex open_stream
