-- ===== src/Proxy/Bridge/Tests.antt =====
-- The bridge of the proxy (internal/proxy/listener.go) at concrete streams.
use mhp.Prelude.{◌≡◌, refl, true, false, none, some, [], ◌∷◌, ◌++◌, Bytes, arith}
use mhp.Errors.{sentinel, eof, ok}
use mhp.Transport.Conn.{Conn, short}
use mhp.Proxy.Forward.{greeting, forward_request}
use mhp.Proxy.Bridge.{closed_by, bridge}
use mhp.Proxy.Bridge.Closes.{is_closed, bridge-is_closed, bridge-Progress}

abbrev stream : Conn
stream = record {
  input = 5 ∷ 0 ∷ 7 ∷ [];
  input_end = sentinel eof;
  writes = short 1 ∷ [];
  output = [];
  deadline = none;
  deadlines = [];
  closed = false;
}

abbrev request : Bytes
request = 5 ∷ 1 ∷ 0 ∷ 1 ∷ 8 ∷ 8 ∷ 8 ∷ 8 ∷ 0 ∷ 80 ∷ []

-- An exit that asks for a password.
bridge-is_closed_at_input :
    is_closed (bridge (some 4) (ok (record stream { input = 5 ∷ 2 ∷ [] })) request none).relay_conn
    ≡ true
bridge-is_closed_at_input =
    bridge-is_closed (some 4) (ok (record stream { input = 5 ∷ 2 ∷ [] })) request none

bridge-Progress_at_input :
    let d = (forward_request request stream).1 in
    (bridge (some 4) (ok stream) request none
      ≡ record { error = none; relay_conn = some (closed_by d); copied = true })
    × (d.output ≡ [] ++ (greeting ++ request))
    × (d.input ≡ 7 ∷ [])
bridge-Progress_at_input = bridge-Progress 4 stream request (7 ∷ []) none (omega arith, tt) refl
