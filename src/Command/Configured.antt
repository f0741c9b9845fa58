-- ===== src/Command/Configured.antt =====
-- A configured client at a configured relay, from the token files to the session (cmd/mhp/main.go,
-- internal/config, internal/transport).
pub mod Tests
use mathlib.Core.Path.{subst}
use mhp.Prelude.{◌≡◌, ◌↔◌, refl, sym, ap, ◌∙◌, ◌⊎◌, inl, inr, ℕ, true, false, Bytes, is_empty}
use mhp.Errors.{Error, Result, ok, err, wrap, detail, authentication}
use mhp.Config.{Mode, mode_relay, mode_exit, mode_proxy}
use mhp.Config.Space.{trim_space}
use mhp.Config.Load.{Config, ParsedFlags, Order, loaded, load}
use mhp.Config.Load.Accepts.{Visits}
use mhp.Transport.Conn.{Conn}
use mhp.Transport.Framing.{Codec}
use mhp.Transport.Records.{Hello, Response}
use mhp.Transport.Timing.{Timing, default_timing}
use mhp.Transport.Handshake.{
  Verifier, verify, ServerEnv, acceptance, refusal, session_of, handshake,
}
use mhp.Transport.Authenticator.{Authenticator, ClientEnv, hello_of, exchange}
use mhp.Transport.Agreement.Codecs.{Carries}
use mhp.Transport.Agreement.Outcome.{authentication_failed, Wired, agreement, agreement_refused}
use mhp.Command.{verifier_of, authenticator_of}
use mhp.Command.Tokens.{bearer_file, is_client, verify-load}

-- Both commands have loaded their configuration, from flags and files of their own: the relay's, and
-- that of a client. The relay's file with the bearer of the client's role has the content `a`, the
-- client's token file the content `b`.
pub record Configured (relay client : Config) (role : Mode) (a b : Bytes) : Type 0 where
  pub relay_order : Order
  pub client_order : Order
  pub relay_file : Bytes → Result Bytes
  pub client_file : Bytes → Result Bytes
  pub relay_flags : ParsedFlags
  pub client_flags : ParsedFlags
  pub relay_visits : Visits relay_order
  pub client_visits : Visits client_order
  pub relay_mode : relay_flags.mode ≡ mode_relay
  pub client_mode : client_flags.mode ≡ role
  pub relay_loads : load relay_order relay_file relay_flags ≡ loaded relay
  pub client_loads : load client_order client_file client_flags ≡ loaded client
  pub relay_reads : relay_file (bearer_file relay_flags role) ≡ ok a
  pub client_reads : client_file client_flags.token_file ≡ ok b

-- The two contents agree but for white space around them, and are not only white space.
abbrev pub Agree : Bytes → Bytes → Type 0
Agree a b = (trim_space b ≡ trim_space a) × (is_empty (trim_space b) ≡ false)

verify-Configured :
    (relay client : Config) (role : Mode) (a b : Bytes)
    → Configured relay client role a b
    → is_client role ≡ true
    → (verify (verifier_of relay) role (authenticator_of client role).token ≡ ok tt) ↔ Agree a b
verify-Configured relay client role a b k h =
    subst
      (λ m. (verify (verifier_of relay) m (authenticator_of client m).token ≡ ok tt) ↔ Agree a b)
      k.client_mode
      (verify-load k.relay_order k.client_order k.relay_file k.client_file k.relay_flags
        k.client_flags relay client a b k.relay_visits k.client_visits k.relay_mode
        (ap is_client k.client_mode ∙ h) k.relay_loads k.client_loads
        (ap (λ m. k.relay_file (bearer_file k.relay_flags m)) k.client_mode ∙ k.relay_reads)
        k.client_reads)

roles : (role : Mode) → is_client role ≡ true → (role ≡ mode_exit) ⊎ (role ≡ mode_proxy)
roles mode_exit h = inl refl
roles mode_proxy h = inr refl
roles mode_relay h = cc
roles (Mode.other s) h = cc

module _ (hellos : Codec Hello) (responses : Codec Response) (ce : ClientEnv) (se : ServerEnv)
    (a : Authenticator) (v : Verifier) (c s : Conn) (mux : ℕ) where
  -- What both sides hold, once they agree.
  abbrev pub Linked : Type 0
  Linked =
      ((handshake hellos responses se default_timing v s).0 ≡ ok (session_of se (hello_of a) mux))
      × ((exchange hellos responses ce a c).0 ≡ ok (acceptance se))

  linked :
      (answer : Result (Unit {0}))
      → Carries hellos (hello_of a)
      → Carries responses (acceptance se)
      → Carries responses (refusal authentication_failed)
      → Wired hellos responses ce se default_timing a v c s
      → (a.role ≡ mode_exit) ⊎ (a.role ≡ mode_proxy)
      → se.server ≡ ok mux
      → verify v a.role a.token ≡ answer
      → Linked ↔ (verify v a.role a.token ≡ ok tt)
  linked (ok u) k l m w r server h = (
    λ x. h,
    λ good.
        let (x, y, z) =
          agreement hellos responses ce se default_timing a v c s mux k l w r server good in
        (x, y),
  )
  linked (err e) k l m w r server h =
      let (x, y) = agreement_refused hellos responses ce se default_timing a v c s e k m w r h in
      (λ z. cc (sym x ∙ z.0), λ good. cc (sym h ∙ good))

-- From the configuration to the session: a configured exit-node or proxy, on a connection to a
-- configured relay on which no call of the network fails, ends up with a session on both sides (the
-- relay's with the client's role, under the identifier that the client is told), exactly when the
-- two token files of its role agree but for white space around the token, and hold one.
pub linked_iff :
    (hellos : Codec Hello) (responses : Codec Response) (ce : ClientEnv) (se : ServerEnv)
    (relay client : Config) (role : Mode) (c s : Conn) (mux : ℕ) (a b : Bytes)
    → Carries hellos (hello_of (authenticator_of client role))
    → Carries responses (acceptance se)
    → Carries responses (refusal authentication_failed)
    → Wired hellos responses ce se default_timing
        (authenticator_of client role)
        (verifier_of relay)
        c
        s
    → se.server ≡ ok mux
    → is_client role ≡ true
    → Configured relay client role a b
    → Linked hellos responses ce se (authenticator_of client role) (verifier_of relay) c s mux
      ↔ Agree a b
unfolding authenticator_of
linked_iff hellos responses ce se relay client role c s mux a b k l m w server h configured =
    let v = verifier_of relay in
    let who = authenticator_of client role in
    let held =
      linked hellos responses ce se who v c s mux (verify v role who.token) k l m w (roles role h)
        server refl in
    let agreed = verify-Configured relay client role a b configured h in
    (λ x. agreed.0 (held.0 x), λ y. held.1 (agreed.1 y))
