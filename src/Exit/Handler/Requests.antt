-- ===== src/Exit/Handler/Requests.antt =====
-- internal/exit/handler.go: what `ServeConn` gives to go-socks5 for a request, the rule and the
-- connect handle.
use mhp.Prelude.{ℕ, ◌≡◌, refl, Bool, true, false, ◌&&◌, ◌==◌, some, [], ◌∷◌, Bytes, if◌then◌else◌}
use mhp.Errors.{sentinel, other}
use mhp.Exit.Access.{Policy, to4, normalised, allowed}
use mhp.Exit.Connect.{Env, Served, handle_connect}
use mhp.Exit.Connect.Dials.{handle_connect-dialed}

-- `connectOnlyRule.Allow`; `connect` is `statute.CommandConnect`.
unfoldable pub allow : ℕ → ℕ → Bool
allow connect command = command == connect

-- `exit: unexpected connection wrapper`.
abbrev pub unwrapped : Served
unwrapped = record {
  dialed = [];
  replies = [];
  target_closed = false;
  forwarded = false;
  error = some (sentinel (other 4));
}

-- `is_conn` is whether the library's writer is a `net.Conn`.
unfoldable pub connect_handle : Bool → Env → Policy → Bytes → ℕ → Served
connect_handle is_conn env pol dest port =
    let served = handle_connect env pol dest port in if is_conn then served else unwrapped

-- The handle dials nothing but the normal form of an allowed destination, whatever the library hands
-- it as the writer.
connect_handle-dialed :
    (is_conn : Bool) (env : Env) (pol : Policy) (dest : Bytes) (port : ℕ)
    → (connect_handle is_conn env pol dest port).dialed
      ≡ (if is_conn && allowed pol dest then (normalised (to4 dest) dest, port) ∷ [] else [])
unfolding connect_handle
connect_handle-dialed true env pol dest port = handle_connect-dialed env pol dest port
connect_handle-dialed false env pol dest port = refl
