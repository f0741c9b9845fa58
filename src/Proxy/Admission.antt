-- ===== src/Proxy/Admission.antt =====
-- internal/proxy/listener.go: the admission of browser connections. A connection is a number; the
-- buffered channel `sem` is the number of its elements.
pub mod Accounts
pub mod Credentials
pub mod Tests
use mhp.Prelude.{
  ℕ, ◌+◌, ◌-◌, Bool, true, false, ◌&&◌, ltb, is_empty, Bytes, Option, none, some, List, [], ◌∷◌,
  get_elem?, erase_idx, if◌then◌else◌,
}

abbrev pub max_pending : ℕ
max_pending = 256

pub record Listener : Type 0 where
  pub sem : ℕ
  -- the connections whose `serve` is in `server.ServeConn`, and those that were closed
  pub serving : List ℕ
  pub closed : List ℕ

unfoldable pub new_listener : Listener
new_listener = record { sem = 0; serving = []; closed = [] }

-- `acquire`: whether there was room, and the new semaphore.
unfoldable pub acquire : ℕ → Bool × ℕ
acquire sem = if ltb sem max_pending then (true, sem + 1) else (false, sem)

-- `release` of an empty semaphore does nothing.
unfoldable pub release : ℕ → ℕ
release sem = sem - 1

abbrev pub admit : Listener → ℕ → Bool × ℕ → Listener
admit l conn (true, sem) = record l { sem = sem; serving = conn ∷ l.serving }
admit l conn (false, sem) = record l { sem = sem; closed = conn ∷ l.closed }

-- `serve` up to `server.ServeConn`.
unfoldable pub serve : Listener → ℕ → Listener
unfolding acquire
serve l conn = admit l conn (acquire l.sem)

abbrev pub end_conn : Listener → ℕ → Option ℕ → Listener
end_conn l n none = l
end_conn l n (some conn) = record {
  sem = release l.sem;
  serving = erase_idx l.serving n;
  closed = conn ∷ l.closed;
}

-- The deferred calls of `serve`, when `ServeConn` of the n-th connection returns.
unfoldable pub done : Listener → ℕ → Listener
unfolding release
done l n = end_conn l n (get_elem? l.serving n)

pub data Event : Type 0 where
  accepts : ℕ → Event
  ends : ℕ → Event

unfoldable pub step : Listener → Event → Listener
unfolding serve done
step l (accepts conn) = serve l conn
step l (ends n) = done l n

unfoldable pub run : Listener → List Event → Listener
run l [] = l
run l (event ∷ events) = run (step l event) events

-- `authMethods`: the one method that the listener offers.
pub data Auth : Type 0 where
  no_auth : Auth
  user_pass : Bytes → Bytes → Auth

unfoldable pub auth_methods : Bytes → Bytes → Auth
auth_methods username password =
    if is_empty username && is_empty password then no_auth else user_pass username password
