-- ===== src/Transport/Handshake.antt =====
-- internal/transport/handshake.go: the relay's side of the authentication.
pub mod Verifier
pub mod Deadline
pub mod Accepting
use mhp.Prelude.{
  ℕ, ◌≡◌, Bool, true, false, not, Option, none, some, List, [], ◌∷◌, Bytes, is_empty, bytes_eq,
  if◌then◌else◌, codes,
}
use mhp.Errors.{
  Error, Result, ok, err, sentinel, wrap, mark, listen_tls_failed, recv_failure, send_failure,
  empty_bearer, bad_role, wrong_token,
}
use mhp.Config.{Mode, mode_exit, mode_proxy, mode_eq}
use mhp.Transport.Conn.{Conn, Io, ◌>>=◌, ◌>>◌, done, fail, lift, on_error, or_close, ignore}
use mhp.Transport.Framing.{Codec, read_json, write_json}
use mhp.Transport.Records.{
  Hello, Response, Status, status_ok, status_error, hello_version, validate_hello, new_session_id,
}
use mhp.Transport.Timing.{Timing}
use mhp.Transport.Tls.{ListenEnv, listen_tls}

-- `Verifier.ExpectedExits`, a map from roles to bearers.
abbrev pub Verifier : Type 0
Verifier = Mode → Option Bytes

abbrev pub check_token : Bytes → Option Bytes → Result (Unit {0})
check_token token none = err (sentinel bad_role)
check_token token (some expected) =
    if is_empty token
    then err (sentinel empty_bearer)
    else if not (bytes_eq token expected)
    then err (sentinel wrong_token)
    else ok tt

unfoldable pub verify : Verifier → Mode → Bytes → Result (Unit {0})
verify v role token = check_token token (v role)

-- `newSession` of session.go, on a connection and a mux that are not nil: `newServerSession` and
-- `newClientSession` return no nil mux without an error.
pub record Session : Type 0 where
  pub id : Bytes
  pub mux : ℕ
  pub role : Mode

-- The answers of the environment during one handshake: TLS, the 16 random bytes, `yamux.Server`.
pub record ServerEnv : Type 0 where
  pub listen : ListenEnv
  pub random : Bytes
  pub server : Result ℕ

-- What `ln.Accept` delivers: a socket, or an error with whether the context is done.
pub data Arrival : Type 0 where
  connects : ServerEnv → Conn → Arrival
  accept_error : Error → Bool → Arrival

-- `waits` is a call that has not returned: no further socket has come.
pub data RunResult : Type 0 where
  waits stopped : RunResult
  failed : Error → RunResult
  serves : Session → Conn → RunResult

-- A failed handshake closes the socket and goes on with the next.
abbrev settle : Result Session × Conn → RunResult × List Conn → RunResult × List Conn
settle (ok s, c) rest = (serves s c, [])
settle (err e, c) rest = (rest.0, record c { closed = true } ∷ rest.1)

abbrev pub mux_failed : Error → Error
mux_failed e = wrap "transport" (wrap "transport: start server session" e)

abbrev pub session_of : ServerEnv → Hello → ℕ → Session
session_of env hello mux = record { id = new_session_id env.random; mux = mux; role = hello.role }

-- The verdict of the relay on a client that it accepts, and on one that it does not.
abbrev pub acceptance : ServerEnv → Response
acceptance env = record {
  version = hello_version;
  status = status_ok;
  session_id = new_session_id env.random;
  error_code = [];
}

abbrev pub refusal : Bytes → Response
refusal code = record {
  version = hello_version;
  status = status_error;
  session_id = [];
  error_code = code;
}

module _ (hellos : Codec Hello) (responses : Codec Response) where
  unfoldable pub write_verdict : Bytes → Io (Unit {0})
  write_verdict code = write_json responses (refusal code)

  abbrev pub start_mux : ServerEnv → Hello → Io Session
  start_mux env hello = do
    mux ← or_close mux_failed (lift env.server)
    done (session_of env hello mux)

  unfoldable pub accept : ServerEnv → Hello → Io Session
  accept env hello = do
    on_error (mark send_failure) (write_json responses (acceptance env))
    start_mux env hello

  unfoldable pub reject : Error → Io Session
  reject e = do
    ignore (write_verdict (codes "authentication_failed"))
    fail (wrap "transport: verify" e)

  abbrev pub admit : ServerEnv → Hello → Result (Unit {0}) → Io Session
  admit env hello (ok u) = accept env hello
  admit env hello (err e) = reject e

  -- The checks on the hello, and the verdict.
  unfoldable pub vet : ServerEnv → Verifier → Hello → Io Session
  vet env v hello = do
    on_error (mark recv_failure) (lift (validate_hello hello))
    admit env hello (verify v hello.role hello.token)

  -- Everything after TLS.
  unfoldable pub converse : ServerEnv → Verifier → Io Session
  unfolding vet
  converse env v = do hello ← on_error (mark recv_failure) (read_json hellos); vet env v hello

  unfoldable pub handshake : ServerEnv → Timing → Verifier → Io Session
  handshake env timing v = do
    on_error (mark listen_tls_failed) (listen_tls env.listen timing)
    converse env v

  -- The result of `Handshake.Run`, and the sockets that it turned away, in order.
  unfoldable pub run : Timing → Verifier → List Arrival → RunResult × List Conn
  run timing v [] = (waits, [])
  run timing v (accept_error e true ∷ rest) = (stopped, [])
  run timing v (accept_error e false ∷ rest) = (failed (wrap "transport: accept" e), [])
  run timing v (connects env c ∷ rest) = settle (handshake env timing v c) (run timing v rest)
