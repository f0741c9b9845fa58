-- ===== src/Proxy/Forward.antt =====
-- internal/proxy/listener.go: handing a SOCKS request on to the exit.
pub mod Progress
pub mod Tests
use mhp.Prelude.{
  ℕ, zero, suc, Bool, true, false, not, ◌==◌, List, [], ◌∷◌, Bytes, bytes_eq, length, drop,
  if◌then◌else◌,
}
use mhp.Errors.{Error, sentinel, wrap, io_short_write, other}
use mhp.Transport.Conn.{Io, ◌>>=◌, ◌>>◌, done, fail, on_error, read_full, write}

-- The loop of `writeFull`, on as many rounds as there are bytes: each round writes at least one, or
-- ends the loop. (Without rounds left there is nothing left to write.)
unfoldable pub write_rounds : ℕ → Bytes → Io (Unit {0})
write_rounds n [] = done tt
write_rounds zero (b ∷ payload) = fail (sentinel io_short_write)
write_rounds (suc n) (b ∷ payload) = do
  k ← write (b ∷ payload)
  if k == 0 then fail (sentinel io_short_write) else write_rounds n (drop k (b ∷ payload))

unfoldable pub write_full : Bytes → Io (Unit {0})
unfolding write_rounds
write_full payload = write_rounds (length payload) payload

abbrev pub greeting : Bytes
greeting = 0x05 ∷ 0x01 ∷ 0x00 ∷ []

abbrev pub no_auth : Bytes
no_auth = 0x05 ∷ 0x00 ∷ []

-- `request` is `request.Bytes()`.
abbrev pub after_method : Bytes → Bytes → Io (Unit {0})
after_method request reply =
    if not (bytes_eq reply no_auth)
    then fail (sentinel (other 1))
    else on_error (wrap "proxy: forward request") (write_full request)

unfoldable pub forward_request : Bytes → Io (Unit {0})
forward_request request = do
  on_error (wrap "proxy: start exit SOCKS5 negotiation") (write_full greeting)
  reply ← on_error (wrap "proxy: read exit SOCKS5 method selection") (read_full 2)
  after_method request reply
