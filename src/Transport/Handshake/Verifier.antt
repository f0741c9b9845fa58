-- ===== src/Transport/Handshake/Verifier.antt =====
-- Who gets a session (internal/transport/handshake.go).
use mhp.Prelude.{
  ◌≡◌, refl, ◌↔◌, ◌⊎◌, ap, false, Option, none, some, Bytes, is_empty, bytes_eq_iff, arith,
}
use mhp.Errors.{Result, ok, err, mark, listen_tls_failed, recv_failure, send_failure}
use mhp.Config.{Mode, mode_exit, mode_proxy}
use mhp.Transport.Conn.{Conn, >>=-ok, on_error-ok, or_close-ok, lift, on_error, or_close, done}
use mhp.Transport.Framing.{Codec, read_json, write_json}
use mhp.Transport.Records.{Hello, Response, validate_hello, new_session_id, hello_version}
use mhp.Transport.Timing.{Timing}
use mhp.Transport.Tls.{listen_tls}
use mhp.Transport.Handshake.{
  Verifier, verify, Session, ServerEnv, start_mux, acceptance, mux_failed, session_of, accept,
  admit, reject, vet, converse, handshake,
}

-- A token is accepted for a role exactly when the relay expects it there and it is not empty.
pub verify_iff :
    (v : Verifier) (role : Mode) (token : Bytes)
    → (verify v role token ≡ ok tt) ↔ ((v role ≡ some token) × (is_empty token ≡ false))
unfolding verify
verify_iff v role token = go (v role) refl
  where
    go :
        (e : Option Bytes)
        → v role ≡ e
        → (verify v role token ≡ ok tt) ↔ ((v role ≡ some token) × (is_empty token ≡ false))
    go none h = ground arith
    go (some x) h = ground (arith, bytes_eq_iff token x)

validate_hello_ok :
    (hello : Hello)
    → validate_hello hello ≡ ok tt
    → (hello.version ≡ hello_version) × ((hello.role ≡ mode_exit) ⊎ (hello.role ≡ mode_proxy))
unfolding validate_hello
validate_hello_ok hello h = ground arith

module _ (hellos : Codec Hello) (responses : Codec Response) where
  -- What a session on a socket rests on: TLS is up there; the client sent a hello of the right
  -- version, for the role of exit-node or proxy, whose own token is not empty and is the one that the
  -- relay expects for this role; the session has the role of the hello, the identifier made of the
  -- random bytes and the mux that was started.
  pub record Authentic (env : ServerEnv) (timing : Timing) (v : Verifier) (c : Conn) (s : Session)
      : Type 0 where
    pub hello : Hello
    pub up : Conn
    pub behind : Conn
    pub secured : listen_tls env.listen timing c ≡ (ok tt, up)
    pub received : read_json hellos up ≡ (ok hello, behind)
    pub version : hello.version ≡ hello_version
    pub client_role : (hello.role ≡ mode_exit) ⊎ (hello.role ≡ mode_proxy)
    pub expected : v hello.role ≡ some hello.token
    pub not_empty : is_empty hello.token ≡ false
    pub role : s.role ≡ hello.role
    pub identified : s.id ≡ new_session_id env.random
    pub started : env.server ≡ ok s.mux

  -- What a session has from its start.
  record Starts (env : ServerEnv) (hello : Hello) (s : Session) : Type 0 where
    role : s.role ≡ hello.role
    identified : s.id ≡ new_session_id env.random
    started : env.server ≡ ok s.mux

  start_mux_ok :
      (env : ServerEnv) (hello : Hello) (c c' : Conn) (s : Session)
      → start_mux hellos responses env hello c ≡ (ok s, c')
      → Starts env hello s
  start_mux_ok env hello c c' s h =
      let (mux, d, got, rest) =
        >>=-ok (or_close mux_failed (lift env.server)) (λ m. done (session_of env hello m)) c h in
      let up = ap (λ q. q.0) (or_close-ok mux_failed (lift env.server) c got) in
      record {
        role = ground (arith, rest);
        identified = ground (arith, rest);
        started = ground (arith, rest, up);
      }

  admit_ok :
      (env : ServerEnv) (v : Verifier) (hello : Hello) (r : Result (Unit {0})) (c c' : Conn)
      (s : Session)
      → admit hellos responses env hello r c ≡ (ok s, c')
      → (r ≡ ok tt) × Starts env hello s
  unfolding accept reject
  admit_ok env v hello (ok u) c c' s h =
      let (sent, d, first, rest) =
        >>=-ok (on_error (mark send_failure) (write_json responses (acceptance env)))
          (λ _. start_mux hellos responses env hello) c h in
      (refl, start_mux_ok env hello d c' s rest)
  admit_ok env v hello (err e) c c' s h = cc (ap (λ q. q.0) h)

  -- What `vet` checks of the hello that it is given.
  vet_ok :
      (env : ServerEnv) (v : Verifier) (hello : Hello) (c c' : Conn) (s : Session)
      → vet hellos responses env v hello c ≡ (ok s, c')
      → (validate_hello hello ≡ ok tt)
        × (verify v hello.role hello.token ≡ ok tt)
        × Starts env hello s
  unfolding vet
  vet_ok env v hello c c' s h =
      let (u, d, valid, rest) =
        >>=-ok (on_error (mark recv_failure) (lift (validate_hello hello)))
          (λ _. admit hellos responses env hello (verify v hello.role hello.token)) c h in
      let (verified, starts) = admit_ok env v hello (verify v hello.role hello.token) d c' s rest in
      (
        ap (λ q. q.0) (on_error-ok (mark recv_failure) (lift (validate_hello hello)) c valid),
        verified,
        starts,
      )

  -- A handshake that yields a session has checked its client: TLS came up, the hello that was read
  -- from the socket then has the right version, names the role exit-node or proxy and carries a token
  -- that is not empty and equals the one that the relay expects for this role; the session has this
  -- role, the identifier drawn for it and the mux that was started.
  pub handshake-Authentic :
      (env : ServerEnv) (timing : Timing) (v : Verifier) (c c' : Conn) (s : Session)
      → handshake hellos responses env timing v c ≡ (ok s, c')
      → Authentic env timing v c s
  unfolding handshake converse
  handshake-Authentic env timing v c c' s h =
      let (u, up, secured, talk) =
        >>=-ok (on_error (mark listen_tls_failed) (listen_tls env.listen timing))
          (λ _. converse hellos responses env v) c h in
      let (hello, behind, got, rest) =
        >>=-ok (on_error (mark recv_failure) (read_json hellos)) (vet hellos responses env v) up
          talk in
      let (valid, verified, starts) = vet_ok env v hello behind c' s rest in
      let fine = validate_hello_ok hello valid in
      let checked = (verify_iff v hello.role hello.token).0 verified in
      record {
        hello = hello;
        up = up;
        behind = behind;
        secured = on_error-ok (mark listen_tls_failed) (listen_tls env.listen timing) c secured;
        received = on_error-ok (mark recv_failure) (read_json hellos) up got;
        version = fine.0;
        client_role = fine.1;
        expected = checked.0;
        not_empty = checked.1;
        role = starts.role;
        identified = starts.identified;
        started = starts.started;
      }
