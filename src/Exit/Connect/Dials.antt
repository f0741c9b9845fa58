-- ===== src/Exit/Connect/Dials.antt =====
-- What the exit dials and answers (internal/exit/handler.go).
use mhp.Prelude.{
  ℕ, zero, suc, ◌-◌, ◌<◌, ◌≡◌, refl, sym, ap, ◌∙◌, ◌↔◌, ◌⊎◌, inl, inr, Bool, true, false, not, ◌&&◌,
  ◌||◌, Bool-cases, Option, none, some, [], ◌∷◌, ◌++◌, Bytes, length, take, drop, ◌==◌, bytes_eq,
  arith, if◌then◌else◌,
}
use mhp.Errors.{Error, Result, ok, err}
use mhp.Exit.Access.{Policy, new_policy, to4, normalised, allowed, verdict, v4_in_v6_prefix}
use mhp.Exit.Access.Cidr.{address, in_block, refused_v4}
use mhp.Exit.Access.Allowed.{allowed_v4}
use mhp.Exit.Connect.{success, Env, Served, connected, answered, dial_allowed, handle_connect}

length-drop : (n : ℕ) (xs : Bytes) → length (drop n xs) ≡ length xs - n
length-drop zero xs = omega arith
length-drop (suc n) [] = omega arith
length-drop (suc n) (x ∷ xs) = omega (arith, length-drop n xs)

to4_four : (v : Bytes) → length v ≡ 4 → to4 v ≡ some v
unfolding to4
to4_four v h = ground arith

to4-cases : (ip : Bytes) → (to4 ip ≡ none) ⊎ ((v : Bytes) × (to4 ip ≡ some v) × (length v ≡ 4))
unfolding to4
to4-cases ip = elim (Bool-cases (length ip == 4)) [
  | inl e ↦ inr (ip, ground (arith, e), ground (arith, e))
  | inr e ↦ elim (Bool-cases (length ip == 16 && bytes_eq (take 12 ip) v4_in_v6_prefix)) [
    | inl f ↦ inr (drop 12 ip, ground (arith, e, f), ground (arith, f, length-drop 12 ip))
    | inr f ↦ inl (ground (arith, e, f))
  ]
]

normalised-normalised :
    (ip : Bytes)
    → normalised (to4 (normalised (to4 ip) ip)) (normalised (to4 ip) ip) ≡ normalised (to4 ip) ip
normalised-normalised ip = elim (to4-cases ip) [
  | inl h ↦ rw (h, h) refl
  | inr (v, h, k) ↦ rw (h, to4_four v k) refl
]

allowed-normalised : (p : Policy) (ip : Bytes) → allowed p (normalised (to4 ip) ip) ≡ allowed p ip
unfolding allowed
allowed-normalised p ip = ap (verdict p) (normalised-normalised ip)

answered-dialed :
    (env : Env) (ip : Bytes) (port : ℕ) (r : Result ℕ) (send clear : Option Error)
    → env.send ≡ send
    → env.clear ≡ clear
    → (answered env ip port r).dialed ≡ (ip, port) ∷ []
answered-dialed env ip port (err e) send clear h k = refl
answered-dialed env ip port (ok local) (some e) clear h k = rw h refl
answered-dialed env ip port (ok local) none (some e) h k = rw (h, k) refl
answered-dialed env ip port (ok local) none none h k = rw (h, k) refl

-- The exit dials the destination once, in its normal form, when the policy allows it, and nothing
-- at all otherwise.
pub handle_connect-dialed :
    (env : Env) (pol : Policy) (dest : Bytes) (port : ℕ)
    → (handle_connect env pol dest port).dialed
      ≡ (if allowed pol dest then (normalised (to4 dest) dest, port) ∷ [] else [])
unfolding handle_connect
handle_connect-dialed env pol dest port =
    let ip = normalised (to4 dest) dest in
    elim (Bool-cases (allowed pol ip)) [
      | inl e ↦
          rw (e, sym (allowed-normalised pol dest) ∙ e)
            (answered-dialed env ip port (env.dial ip port) env.send env.clear refl refl)
      | inr e ↦ rw (e, sym (allowed-normalised pol dest) ∙ e) refl
    ]

not_allowed :
    (loopback other_block : Bool)
    → (loopback || other_block) ≡ true
    → (if loopback then false else not other_block) ≡ false
not_allowed loopback other_block h = ground arith

-- No destination in a refused or loopback block of IPv4 is dialled, in its 4-byte form or disguised
-- as an IPv4-mapped IPv6 address, whatever the environment.
pub handle_connect-refused_v4 :
    (env : Env) (a b c d port : ℕ)
    → a < 256
    → b < 256
    → c < 256
    → d < 256
    → (in_block (address 127 0 0 0) 8 (address a b c d) || refused_v4 (address a b c d)) ≡ true
    → ((handle_connect env new_policy (a ∷ b ∷ c ∷ d ∷ []) port).dialed ≡ [])
      × ((handle_connect env new_policy (v4_in_v6_prefix ++ (a ∷ b ∷ c ∷ d ∷ [])) port).dialed ≡ [])
unfolding new_policy
handle_connect-refused_v4 env a b c d port ha hb hc hd h =
    let four = a ∷ b ∷ c ∷ d ∷ [] in
    let no =
      not_allowed (in_block (address 127 0 0 0) 8 (address a b c d)) (refused_v4 (address a b c d))
        h in
    let (short, mapped) = allowed_v4 new_policy a b c d ha hb hc hd in
    (silent four (short ∙ no), silent (v4_in_v6_prefix ++ four) (mapped ∙ no))
  where
    silent :
        (dest : Bytes)
        → allowed new_policy dest ≡ false
        → (handle_connect env new_policy dest port).dialed ≡ []
    silent dest e =
        handle_connect-dialed env new_policy dest port
        ∙ ap (λ q. if q then (normalised (to4 dest) dest, port) ∷ [] else []) e

-- What holds of every request: one reply; payload is forwarded exactly when no error is returned,
-- and then the reply was the success of a socket that was dialled and is closed at the end.
abbrev pub Answers : Env → Bytes → ℕ → Served → Type 0
Answers env ip port s =
    (length s.replies ≡ 1)
    × ((s.forwarded ≡ true) ↔ (s.error ≡ none))
    × (s.forwarded ≡ true
        → (local : ℕ) × (env.dial ip port ≡ ok local)
          × (s.replies ≡ success local ∷ [])
          × (s.target_closed ≡ true))

connected-Answers :
    (env : Env) (ip : Bytes) (port local : ℕ) (send clear : Option Error)
    → env.dial ip port ≡ ok local
    → Answers env ip port (connected ip port local send clear)
connected-Answers env ip port local (some e) clear h = (refl, ground arith, λ q. cc q)
connected-Answers env ip port local none (some e) h = (refl, ground arith, λ q. cc q)
connected-Answers env ip port local none none h = (refl, ground arith, λ q. (local, h, refl, refl))

answered-Answers :
    (env : Env) (ip : Bytes) (port : ℕ) (r : Result ℕ)
    → env.dial ip port ≡ r
    → Answers env ip port (answered env ip port r)
answered-Answers env ip port (err e) h = (refl, ground arith, λ q. cc q)
answered-Answers env ip port (ok local) h = connected-Answers env ip port local env.send env.clear h

dial_allowed-Answers :
    (env : Env) (pol : Policy) (ip : Bytes) (port : ℕ)
    → Answers env ip port (dial_allowed env pol ip port)
dial_allowed-Answers env pol ip port = elim (Bool-cases (allowed pol ip)) [
  | inl e ↦ rw (e, dial_allowed) (answered-Answers env ip port (env.dial ip port) refl)
  | inr e ↦ rw (e, dial_allowed) (refl, ground arith, λ q. cc q)
]

-- Every request gets one reply; its payload is forwarded exactly when no error is returned, and then
-- the reply was the success of the socket that the dialer returned, which is closed at the end.
pub handle_connect-Answers :
    (env : Env) (pol : Policy) (dest : Bytes) (port : ℕ)
    → Answers env (normalised (to4 dest) dest) port (handle_connect env pol dest port)
unfolding handle_connect
handle_connect-Answers env pol dest port =
    dial_allowed-Answers env pol (normalised (to4 dest) dest) port
