-- ===== src/Proxy/Admission/Credentials.antt =====
-- The authentication that a configured proxy asks browsers for (internal/proxy/listener.go,
-- internal/config/config.go).
use mathlib.Core.Path.{subst}
use mhp.Prelude.{◌≡◌, ◌⊎◌, inl, inr, false, Bool-cases, Bytes, is_empty, arith}
use mhp.Errors.{Result}
use mhp.Config.{mode_proxy}
use mhp.Config.Load.{Config, ParsedFlags, Order, load, loaded}
use mhp.Config.Load.Accepts.{Accepts, Visits, load_iff}
use mhp.Proxy.Admission.{no_auth, user_pass, auth_methods}

auth_methods-cases :
    (username password : Bytes)
    → is_empty username ≡ is_empty password
    → (auth_methods username password ≡ no_auth)
      ⊎ ((auth_methods username password ≡ user_pass username password)
          × (is_empty username ≡ false)
          × (is_empty password ≡ false))
unfolding auth_methods
auth_methods-cases username password h = elim (Bool-cases (is_empty username)) [
  | inl e ↦ inl (ground (arith, e, h))
  | inr e ↦ inr (ground (arith, e), e, ground (arith, e, h))
]

-- A proxy that starts asks for no authentication, or for a user name and a password that are both
-- not empty.
auth_methods-load :
    (order : Order) (read_file : Bytes → Result Bytes) (p : ParsedFlags) (c : Config)
    → Visits order
    → p.mode ≡ mode_proxy
    → load order read_file p ≡ loaded c
    → (auth_methods c.username c.password ≡ no_auth)
      ⊎ ((auth_methods c.username c.password ≡ user_pass c.username c.password)
          × (is_empty c.username ≡ false)
          × (is_empty c.password ≡ false))
auth_methods-load order read_file p c v m h =
    let accepts =
      subst (λ mode. Accepts read_file mode p c) m ((load_iff order read_file p c v).0 h) in
    let (_, _, credentials, _, same) = accepts in
    auth_methods-cases c.username c.password (rw (same) credentials)
