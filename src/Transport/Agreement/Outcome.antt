-- ===== src/Transport/Agreement/Outcome.antt =====
-- What the two sides conclude (internal/transport/authenticator.go and handshake.go).
use mhp.Prelude.{ℕ, ◌≡◌, refl, ap, ◌∙◌, ◌⊎◌, inl, inr, none, some, Bytes, [], ◌∷◌, ◌++◌, codes}
use mhp.Errors.{Error, ok, err, wrap, detail, authentication}
use mhp.Config.{mode_exit, mode_proxy}
use mhp.Transport.Conn.{Conn}
use mhp.Transport.Framing.{Codec}
use mhp.Transport.Framing.RoundTrip.{frame}
use mhp.Transport.Records.{Hello, Response, validate_hello, validate_response}
use mhp.Transport.Timing.{Timing}
use mhp.Transport.Handshake.{
  Verifier, verify, ServerEnv, acceptance, refusal, session_of, admit, handshake,
}
use mhp.Transport.Handshake.Deadline.{secured, handshake-secured}
use mhp.Transport.Authenticator.{Authenticator, ClientEnv, hello_of, exchange, conclude}
use mhp.Transport.Agreement.Codecs.{Carries}
use mhp.Transport.Agreement.Sides.{
  exchange_lem, exchange-sent, receive_lem, converse_lem, accept_lem, reject_lem,
}

abbrev pub authentication_failed : Bytes
authentication_failed = codes "authentication_failed"

module _ (hellos : Codec Hello) (responses : Codec Response) (ce : ClientEnv) (se : ServerEnv)
    (timing : Timing) (a : Authenticator) (v : Verifier) where
  -- A fresh connection between the client and the relay, on which TLS is up and no call of the
  -- network fails: each side reads what the other writes.
  pub record Wired (c s : Conn) : Type 0 where
    pub client_arm : ce.arm ≡ none
    pub client_clear : ce.clear ≡ none
    pub relay_arm : se.listen.arm ≡ none
    pub relay_tls : se.listen.tls ≡ none
    pub relay_clear : se.listen.clear ≡ none
    pub client_writes : c.writes ≡ []
    pub client_fresh : c.output ≡ []
    pub relay_writes : s.writes ≡ []
    pub relay_fresh : s.output ≡ []
    pub upstream : s.input ≡ (exchange hellos responses ce a c).1.output
    pub downstream : c.input ≡ (handshake hellos responses se timing v s).1.output

  valid_hello : (a.role ≡ mode_exit) ⊎ (a.role ≡ mode_proxy) → validate_hello (hello_of a) ≡ ok tt
  unfolding validate_hello
  valid_hello (inl e) = rw e refl
  valid_hello (inr e) = rw e refl

  -- The relay gets the hello of the client, and its verdict depends on `verify` alone.
  handshake_verdict :
      (c s : Conn) (k : Carries hellos (hello_of a))
      → Wired c s
      → (a.role ≡ mode_exit) ⊎ (a.role ≡ mode_proxy)
      → handshake hellos responses se timing v s
        ≡ admit hellos responses se
            (hello_of a)
            (verify v a.role a.token)
            (record (secured timing s) { input = [] })
  handshake_verdict c s k w r =
      handshake-secured hellos responses se timing v s w.relay_arm w.relay_tls w.relay_clear
      ∙ converse_lem hellos responses se v (hello_of a) k (secured timing s) (valid_hello r) (
          w.upstream
          ∙ exchange-sent hellos responses ce a k c w.client_arm w.client_clear w.client_writes
          ∙ ap (λ q. q ++ frame k.bytes) w.client_fresh)

  -- The client gets the verdict of the relay.
  exchange_verdict :
      (c s : Conn) (k : Carries hellos (hello_of a)) (resp : Response) (l : Carries responses resp)
      → Wired c s
      → validate_response resp ≡ ok tt
      → (handshake hellos responses se timing v s).1.output ≡ frame l.bytes
      → exchange hellos responses ce a c
        ≡ conclude hellos responses ce resp resp.status (record c {
          input = [];
          deadline = some a.timing.setup_timeout;
          deadlines = some a.timing.setup_timeout ∷ c.deadlines;
          output = c.output ++ frame k.bytes;
          writes = [];
        })
  exchange_verdict c s k resp l w valid e =
      exchange_lem hellos responses ce a k c w.client_arm w.client_writes
      ∙ receive_lem hellos responses ce resp l _ valid (w.downstream ∙ e)

  -- The relay accepts a client whose role and token it expects, and then both sides hold the same
  -- session: the relay's has the role and the drawn identifier, the client is told this identifier,
  -- and its setup deadline is cleared.
  pub agreement :
      (c s : Conn) (mux : ℕ)
      → Carries hellos (hello_of a)
      → Carries responses (acceptance se)
      → Wired c s
      → (a.role ≡ mode_exit) ⊎ (a.role ≡ mode_proxy)
      → se.server ≡ ok mux
      → verify v a.role a.token ≡ ok tt
      → ((handshake hellos responses se timing v s).0 ≡ ok (session_of se (hello_of a) mux))
        × ((exchange hellos responses ce a c).0 ≡ ok (acceptance se))
        × ((exchange hellos responses ce a c).1.deadline ≡ none)
  unfolding validate_response
  agreement c s mux k l w r m good =
      let relay =
        handshake_verdict c s k w r
        ∙ ap
            (λ q.
              admit hellos responses se (hello_of a) q (record (secured timing s) { input = [] }))
            good
        ∙ accept_lem hellos responses se (hello_of a) l _ mux w.relay_writes m in
      let told =
        exchange_verdict c s k (acceptance se) l w refl
          (ap (λ q. q.1.output) relay ∙ ap (λ q. q ++ frame l.bytes) w.relay_fresh) in
      (
        ap (λ q. q.0) relay,
        ap (λ q. q.0) told,
        ap (λ q. q.1.deadline) told ∙ rw w.client_clear refl,
      )

  -- The relay refuses every other client of either role: it makes no session, for the reason that
  -- `verify` gives, and the client learns of the refusal as ErrAuthentication with the code
  -- "authentication_failed", whatever the reason.
  pub agreement_refused :
      (c s : Conn) (e : Error)
      → Carries hellos (hello_of a)
      → Carries responses (refusal authentication_failed)
      → Wired c s
      → (a.role ≡ mode_exit) ⊎ (a.role ≡ mode_proxy)
      → verify v a.role a.token ≡ err e
      → ((handshake hellos responses se timing v s).0 ≡ err (wrap "transport: verify" e))
        × ((exchange hellos responses ce a c).0 ≡ err (detail authentication authentication_failed))
  unfolding validate_response
  agreement_refused c s e k l w r bad =
      let relay =
        handshake_verdict c s k w r
        ∙ ap
            (λ q.
              admit hellos responses se (hello_of a) q (record (secured timing s) { input = [] }))
            bad
        ∙ reject_lem hellos responses e l _ w.relay_writes in
      let told =
        exchange_verdict c s k (refusal authentication_failed) l w refl
          (ap (λ q. q.1.output) relay ∙ ap (λ q. q ++ frame l.bytes) w.relay_fresh) in
      (ap (λ q. q.0) relay, ap (λ q. q.0) told)
