-- ===== src/Transport/Linking/Published.antt =====
-- Which links the connector hands out (internal/transport/connector.go, authenticator.go).
use mathlib.Core.Path.{subst}
use mhp.Prelude.{
  ℕ, ◌≡◌, refl, sym, Option, none, some, List, [], ◌∷◌, get_elem?, All, All_of_get_elem?, inl, inr,
  Bool-cases, ◌==◌,
}
use mhp.Errors.{canceled, is, Result, ok, err}
use mhp.Transport.Conn.{Conn}
use mhp.Transport.Framing.{Codec}
use mhp.Transport.Records.{Hello, Response}
use mhp.Transport.Timing.{Timing}
use mhp.Transport.Handshake.{Session}
use mhp.Transport.Authenticator.{Authenticator, ClientEnv, authenticate}
use mhp.Transport.Connector.{
  Phase, connecting, waiting, serving, Connector, Event, connect_fails, connects, timer_fires,
  session_ends, parent_cancelled, start, snapshot, swapped, clear_if, advance, step,
}
use mhp.Transport.Linking.{
  Moment, attempts, waits_over, parent_ends, session_over, connect, event_of, run,
}
use mhp.Transport.Connector.Snapshot.{after_session-current}
use mhp.Transport.Linking.Welcomed.{Welcomed, authenticate-Welcomed}

-- A link that is handed out.
abbrev pub Shown : (ℕ → Type 0) → Option ℕ → Type 0
Shown P none = Unit
Shown P (some link) = P link

-- A link that a moment brings.
abbrev Brings : (ℕ → Type 0) → Event → Type 0
Brings P (connects link) = P link
Brings P event = Unit

swapped-Shown :
    (P : ℕ → Type 0) (current : Option ℕ) (link : ℕ)
    → Shown P current
    → Shown P (swapped current link)
swapped-Shown P none link h = tt
swapped-Shown P (some l) link h = elim (Bool-cases (l == link)) [ inl e ↦ rw e tt | inr e ↦ rw e h ]

advance-Shown :
    (P : ℕ → Type 0) (t : Timing) (phase : Phase) (event : Event) (c : Connector)
    → Brings P event
    → Shown P c.current
    → Shown P (advance t phase event c).current
unfolding advance clear_if
advance-Shown P t connecting (connects link) c b h = b
advance-Shown P t connecting (connect_fails e) c b h = elim (Bool-cases (is canceled e)) [
  | inl x ↦ rw x h
  | inr x ↦ rw x h
]
advance-Shown P t (serving link) (session_ends uptime) c b h =
    subst (λ x. Shown P x) (sym (after_session-current t uptime _))
      (swapped-Shown P c.current link h)
advance-Shown P t waiting timer_fires c b h = h
advance-Shown P t waiting parent_cancelled c b h = h
advance-Shown P t (serving link) parent_cancelled c b h = h
advance-Shown P t phase event c b h = h

module _ (hellos : Codec Hello) (responses : Codec Response) where
  -- The attempt of a run that led to a link.
  pub record IsWelcome (a : Authenticator) (moments : List Moment) (link : ℕ) : Type 0 where
    pub n : ℕ
    pub env : ClientEnv
    pub conn : Conn
    pub attempt : get_elem? moments n ≡ some (attempts env conn)
    pub session : Session
    pub left : Conn
    pub authenticated : authenticate hellos responses env a conn ≡ (ok session, left)
    pub welcomed : Welcomed hellos responses env a session
    pub is_mux : session.mux ≡ link

  run-Shown :
      (P : ℕ → Type 0) (a : Authenticator) (c : Connector) (ms : List Moment)
      → All (λ m. Brings P (event_of hellos responses a m)) ms
      → Shown P c.current
      → Shown P (run hellos responses a c ms).current
  unfolding run step
  run-Shown P a c [] b h = h
  run-Shown P a c (m ∷ ms) (b, bs) h =
      run-Shown P a (step a.timing c (event_of hellos responses a m)) ms bs
        (advance-Shown P a.timing c.phase (event_of hellos responses a m) c b h)

  connect-Brings :
      (a : Authenticator) (moments : List Moment) (n : ℕ) (env : ClientEnv) (conn : Conn)
      (r : Result Session × Conn)
      → get_elem? moments n ≡ some (attempts env conn)
      → authenticate hellos responses env a conn ≡ r
      → Brings (IsWelcome a moments) (connect r)
  connect-Brings a moments n env conn (ok s, left) at h = record {
    n = n;
    env = env;
    conn = conn;
    attempt = at;
    session = s;
    left = left;
    authenticated = h;
    welcomed = authenticate-Welcomed hellos responses env a conn left s h;
    is_mux = refl;
  }
  connect-Brings a moments n env conn (err e, left) at h = tt

  moment-Brings :
      (a : Authenticator) (moments : List Moment) (n : ℕ) (m : Moment)
      → get_elem? moments n ≡ some m
      → Brings (IsWelcome a moments) (event_of hellos responses a m)
  unfolding event_of
  moment-Brings a moments n (attempts env conn) at =
      connect-Brings a moments n env conn (authenticate hellos responses env a conn) at refl
  moment-Brings a moments n waits_over at = tt
  moment-Brings a moments n parent_ends at = tt
  moment-Brings a moments n (session_over uptime) at = tt

  -- Whatever happens to a connector from its start: a link that `Snapshot` shows is the session of one
  -- of its attempts, and in this attempt TLS was up and the relay's answer, read from the connection,
  -- was a valid acceptance, whose identifier the session has, with the client's role.
  pub snapshot-IsWelcome :
      (a : Authenticator) (moments : List Moment)
      → Shown (IsWelcome a moments) (snapshot (run hellos responses a (start a.timing) moments))
  unfolding start snapshot
  snapshot-IsWelcome a moments =
      run-Shown (IsWelcome a moments) a (start a.timing) moments
        (All_of_get_elem? (λ m. Brings (IsWelcome a moments) (event_of hellos responses a m))
          moments (moment-Brings a moments))
        tt
