-- ===== src/Exit/Connect.antt =====
-- internal/exit/handler.go: what the exit does with a CONNECT request, once go-socks5 has parsed it
-- and resolved its name.
pub mod Dials
pub mod Tests
use mhp.Prelude.{ℕ, Bool, true, false, not, Option, none, some, List, [], ◌∷◌, Bytes, if◌then◌else◌}
use mhp.Errors.{Error, Result, ok, err, sentinel, other, wrap}
use mhp.Exit.Access.{Policy, to4, normalised, allowed}

-- The replies of RFC 1928 that the handler sends; success carries the local address of the socket
-- to the destination, under a number.
pub data Reply : Type 0 where
  rule_failure host_unreachable : Reply
  success : ℕ → Reply

-- The answers to the calls of the handler: the dialer with the local address of its socket, the
-- sending of the success reply, the clearing of the deadline. The other replies' errors are dropped.
pub record Env : Type 0 where
  pub dial : Bytes → ℕ → Result ℕ
  pub send : Option Error
  pub clear : Option Error

-- What the handler did: addresses and ports dialled, replies, whether the socket to the destination
-- was opened and closed, whether payload was forwarded, and the error returned.
pub record Served : Type 0 where
  pub dialed : List (Bytes × ℕ)
  pub replies : List Reply
  pub target_closed : Bool
  pub forwarded : Bool
  pub error : Option Error

abbrev pub refused : Served
refused = record {
  dialed = [];
  replies = rule_failure ∷ [];
  target_closed = false;
  forwarded = false;
  error = some (sentinel (other 0));
}

abbrev pub unreachable : Bytes → ℕ → Error → Served
unreachable ip port e = record {
  dialed = (ip, port) ∷ [];
  replies = host_unreachable ∷ [];
  target_closed = false;
  forwarded = false;
  error = some (wrap "exit: dial" e);
}

-- A socket to the destination is open; the deferred Close runs on each return. The last two
-- arguments are the errors of the reply and of the clearing.
abbrev pub connected : Bytes → ℕ → ℕ → Option Error → Option Error → Served
connected ip port local (some e) clear = record {
  dialed = (ip, port) ∷ [];
  replies = success local ∷ [];
  target_closed = true;
  forwarded = false;
  error = some (wrap "exit: send reply" e);
}
connected ip port local none (some e) = record {
  dialed = (ip, port) ∷ [];
  replies = success local ∷ [];
  target_closed = true;
  forwarded = false;
  error = some e;
}
connected ip port local none none = record {
  dialed = (ip, port) ∷ [];
  replies = success local ∷ [];
  target_closed = true;
  forwarded = true;
  error = none;
}

abbrev pub answered : Env → Bytes → ℕ → Result ℕ → Served
answered env ip port (err e) = unreachable ip port e
answered env ip port (ok local) = connected ip port local env.send env.clear

abbrev pub dial_allowed : Env → Policy → Bytes → ℕ → Served
dial_allowed env pol ip port =
    if not (allowed pol ip) then refused else answered env ip port (env.dial ip port)

unfoldable pub handle_connect : Env → Policy → Bytes → ℕ → Served
handle_connect env pol dest port = dial_allowed env pol (normalised (to4 dest) dest) port
