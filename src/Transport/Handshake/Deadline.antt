-- ===== src/Transport/Handshake/Deadline.antt =====
-- Which deadline bounds the hello at the relay (internal/transport/handshake.go and tls.go).
use mhp.Prelude.{◌≡◌, refl, ap, ◌∙◌, none, some, ◌∷◌, ℕ, codes, arith}
use mhp.Errors.{Result, ok, err, mark, recv_failure, send_failure}
use mhp.Transport.Conn.{◌>>=◌, Conn, lift, on_error, or_close, done}
use mhp.Transport.Conn.Keeps.{Keeps, limit, >>=-Keeps, on_error-Keeps}
use mhp.Transport.Framing.{Codec, read_json, write_json}
use mhp.Transport.Framing.Keeps.{read_json-Keeps, write_json-deadline}
use mhp.Transport.Records.{Hello, Response, validate_hello}
use mhp.Transport.Timing.{Timing}
use mhp.Transport.Tls.{ListenEnv, listen_tls}
use mhp.Transport.Handshake.{
  Verifier, verify, ServerEnv, start_mux, acceptance, refusal, mux_failed, session_of, accept,
  admit, reject, vet, converse, handshake, write_verdict,
}

-- The socket once TLS is up: the handshake deadline was set and cleared.
abbrev pub secured : Timing → Conn → Conn
secured timing c = record c {
  deadline = none;
  deadlines = none ∷ some timing.handshake_timeout ∷ c.deadlines;
}

listen_tls_up :
    (env : ListenEnv) (timing : Timing) (c : Conn)
    → env.arm ≡ none
    → env.tls ≡ none
    → env.clear ≡ none
    → listen_tls env timing c ≡ (ok tt, secured timing c)
unfolding listen_tls
listen_tls_up env timing c a t l = ground arith

module _ (hellos : Codec Hello) (responses : Codec Response) where
  start_mux-deadline :
      (env : ServerEnv) (hello : Hello) → Keeps limit (start_mux hellos responses env hello)
  start_mux-deadline env hello c = go env.server
    where
      go :
          (m : Result ℕ)
          → limit ((or_close mux_failed (lift m) >>= λ k. done (session_of env hello k)) c).1
            ≡ limit c
      go (ok k) = refl
      go (err e) = refl

  admit-deadline :
      (env : ServerEnv) (hello : Hello) (r : Result (Unit {0}))
      → Keeps limit (admit hellos responses env hello r)
  unfolding accept reject write_verdict
  admit-deadline env hello (ok u) c =
      >>=-Keeps limit (on_error (mark send_failure) (write_json responses (acceptance env)))
        (λ _. start_mux hellos responses env hello)
        (on_error-Keeps limit (mark send_failure) (write_json responses (acceptance env))
          (write_json-deadline responses (acceptance env)))
        (λ _. start_mux-deadline env hello) c
  admit-deadline env hello (err e) c =
      write_json-deadline responses (refusal (codes "authentication_failed")) c

  converse-deadline :
      (env : ServerEnv) (v : Verifier) → Keeps limit (converse hellos responses env v)
  unfolding converse vet
  converse-deadline env v =
      >>=-Keeps limit (on_error (mark recv_failure) (read_json hellos)) (vet hellos responses env v)
        (on_error-Keeps limit (mark recv_failure) (read_json hellos)
          (read_json-Keeps limit (λ _ _. refl) hellos))
        λ hello.
          >>=-Keeps limit (on_error (mark recv_failure) (lift (validate_hello hello)))
            (λ _. admit hellos responses env hello (verify v hello.role hello.token))
            (on_error-Keeps limit (mark recv_failure) (lift (validate_hello hello)) (λ _. refl))
            (λ _. admit-deadline env hello (verify v hello.role hello.token))

  pub handshake-secured :
      (env : ServerEnv) (timing : Timing) (v : Verifier) (c : Conn)
      → env.listen.arm ≡ none
      → env.listen.tls ≡ none
      → env.listen.clear ≡ none
      → handshake hellos responses env timing v c
        ≡ converse hellos responses env v (secured timing c)
  unfolding handshake
  handshake-secured env timing v c a t l = rw (listen_tls_up env.listen timing c a t l) refl

  -- Once TLS is up, the relay has cleared the handshake deadline and goes on at once to read the
  -- hello, on a socket without a deadline. In the whole handshake it sets no other than the handshake
  -- deadline and the cleared one, whatever the client does: neither while it waits for the hello nor
  -- while it writes its verdict is there one.
  pub handshake_unbounded :
      (env : ServerEnv) (timing : Timing) (v : Verifier) (c : Conn)
      → env.listen.arm ≡ none
      → env.listen.tls ≡ none
      → env.listen.clear ≡ none
      → (handshake hellos responses env timing v c
          ≡ (on_error (mark recv_failure) (read_json hellos) >>= vet hellos responses env v)
              (record c {
                deadline = none;
                deadlines = none ∷ some timing.handshake_timeout ∷ c.deadlines;
              }))
        × ((handshake hellos responses env timing v c).1.deadline ≡ none)
        × ((handshake hellos responses env timing v c).1.deadlines
            ≡ none ∷ some timing.handshake_timeout ∷ c.deadlines)
  unfolding converse
  handshake_unbounded env timing v c a t l =
      let up = handshake-secured env timing v c a t l in
      let kept = ap (λ q. limit q.1) up ∙ converse-deadline env v (secured timing c) in
      (up, ap (λ q. q.0) kept, ap (λ q. q.1) kept)
