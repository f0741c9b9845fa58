-- ===== src/Proxy/Forward/Tests.antt =====
-- A request forwarded in pieces.
use mhp.Prelude.{◌≡◌, refl, none, false, [], ◌∷◌, ◌++◌, Bytes, arith}
use mhp.Errors.{sentinel, eof, ok}
use mhp.Transport.Conn.{Conn, full, short}
use mhp.Proxy.Forward.{greeting, forward_request}
use mhp.Proxy.Forward.Progress.{forward_request-Progress}

-- The greeting goes out in two pieces, and so does the request.
abbrev stream : Conn
stream = record {
  input = 5 ∷ 0 ∷ 7 ∷ [];
  input_end = sentinel eof;
  writes = short 1 ∷ full ∷ short 3 ∷ [];
  output = [];
  deadline = none;
  deadlines = [];
  closed = false;
}

abbrev request : Bytes
request = 5 ∷ 1 ∷ 0 ∷ 1 ∷ 8 ∷ 8 ∷ 8 ∷ 8 ∷ 0 ∷ 80 ∷ []

forward_request-Progress_at_input :
    ((forward_request request stream).0 ≡ ok tt)
    × ((forward_request request stream).1.output ≡ [] ++ (greeting ++ request))
    × ((forward_request request stream).1.input ≡ 7 ∷ [])
forward_request-Progress_at_input =
    forward_request-Progress request (7 ∷ []) stream (omega arith, (tt, (omega arith, tt))) refl
