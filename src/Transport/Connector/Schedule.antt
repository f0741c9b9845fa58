-- ===== src/Transport/Connector/Schedule.antt =====
-- The delays between attempts (internal/transport/connector.go).
use Prim.Native.Nat.{min}
use mhp.Prelude.{
  ℕ, zero, suc, ◌+◌, ◌*◌, ◌^◌, ◌≤◌, ◌<◌, ◌≡◌, refl, ◌∙◌, ap, true, false, List, [], ◌∷◌, ℤ, pos,
  negsuc, leℤ, double64_pos, arith, All, length, leb, Bool-cases, inl, inr,
}
use mhp.Errors.{Error, canceled, is}
use mhp.Transport.Timing.{Timing, next_backoff}
use mhp.Transport.Timing.Backoff.{double-pow, floor-le, pow_two_pos}
use mhp.Transport.Connector.{
  Phase, connecting, waiting, serving, Connector, Event, connect_fails, connects, timer_fires,
  session_ends, start, clear_if, after_session, advance, step, run,
}

-- A schedule with its floor and ceiling, both below 2^62 ns.
pub record Schedule (t : Timing) (floor ceiling : ℕ) : Type 0 where
  pub is_floor : t.min_backoff ≡ pos floor
  pub is_ceiling : t.max_backoff ≡ pos ceiling
  pub ordered : floor ≤ ceiling
  pub small : ceiling < 2 ^ 62

abbrev pub Between : ℕ → ℕ → ℤ → Type 0
Between floor ceiling d = (leℤ (pos floor) d ≡ true) × (leℤ d (pos ceiling) ≡ true)

next_backoff-eq :
    (t : Timing) (floor ceiling d : ℕ)
    → Schedule t floor ceiling
    → d ≤ ceiling
    → next_backoff t (pos d) ≡ pos (min (d * 2) ceiling)
unfolding next_backoff
next_backoff-eq t floor ceiling d s h =
    rw (double64_pos d (omega (arith, s.small)), s.is_ceiling) (ground arith)

-- The delay and all delays so far lie between the floor and the ceiling.
pub record IsPaced (floor ceiling : ℕ) (c : Connector) : Type 0 where
  pub delay : Between floor ceiling c.backoff
  pub waited : All (Between floor ceiling) c.waits

next_backoff-Between :
    (t : Timing) (floor ceiling : ℕ) (d : ℤ)
    → Schedule t floor ceiling
    → Between floor ceiling d
    → Between floor ceiling (next_backoff t d)
next_backoff-Between t floor ceiling (pos d) s h =
    rw (next_backoff-eq t floor ceiling d s (ground arith)) (ground (arith, s.ordered))
next_backoff-Between t floor ceiling (negsuc d) s h = cc (h.0)

floor-Between : (floor ceiling : ℕ) → floor ≤ ceiling → Between floor ceiling (pos floor)
floor-Between floor ceiling h = ground arith

after_session-IsPaced :
    (t : Timing) (floor ceiling : ℕ) (uptime : ℤ) (c : Connector)
    → Schedule t floor ceiling
    → IsPaced floor ceiling c
    → IsPaced floor ceiling (after_session t uptime c)
unfolding after_session
after_session-IsPaced t floor ceiling uptime c s p =
    elim (Bool-cases (leℤ t.healthy_window uptime)) [
      | inl e ↦
          rw (e, after_session)
            (record {
              delay = rw s.is_floor (floor-Between floor ceiling s.ordered);
              waited = p.waited;
            })
      | inr e ↦ rw (e, after_session) p
    ]

advance-IsPaced :
    (t : Timing) (floor ceiling : ℕ) (phase : Phase) (event : Event) (c : Connector)
    → Schedule t floor ceiling
    → IsPaced floor ceiling c
    → IsPaced floor ceiling (advance t phase event c)
unfolding advance
advance-IsPaced t floor ceiling connecting (connect_fails e) c s p =
    elim (Bool-cases (is canceled e)) [
      | inl h ↦ rw (h, advance) (record { delay = p.delay; waited = p.waited })
      | inr h ↦ rw (h, advance) (record { delay = p.delay; waited = (p.delay, p.waited) })
    ]
advance-IsPaced t floor ceiling waiting timer_fires c s p = record {
  delay = next_backoff-Between t floor ceiling c.backoff s p.delay;
  waited = p.waited;
}
advance-IsPaced t floor ceiling (serving link) (session_ends uptime) c s p =
    after_session-IsPaced t floor ceiling uptime _ s (record { delay = p.delay; waited = p.waited })
advance-IsPaced t floor ceiling phase event c s p = record { delay = p.delay; waited = p.waited }

run-IsPaced :
    (t : Timing) (floor ceiling : ℕ) (c : Connector) (events : List Event)
    → Schedule t floor ceiling
    → IsPaced floor ceiling c
    → IsPaced floor ceiling (run t c events)
unfolding run step
run-IsPaced t floor ceiling c [] s p = p
run-IsPaced t floor ceiling c (event ∷ events) s p =
    run-IsPaced t floor ceiling (step t c event) events s
      (advance-IsPaced t floor ceiling c.phase event c s p)

-- Whatever happens to a connector from its start, its delay and every delay that it waited lie
-- between the floor and the ceiling of its schedule.
pub run-start-IsPaced :
    (t : Timing) (floor ceiling : ℕ) (events : List Event)
    → Schedule t floor ceiling
    → IsPaced floor ceiling (run t (start t) events)
unfolding start
run-start-IsPaced t floor ceiling events s =
    run-IsPaced t floor ceiling _ events s
      (record { delay = rw s.is_floor (floor-Between floor ceiling s.ordered); waited = tt })

-- `n` attempts that fail with the error, each waited out.
abbrev pub failures : ℕ → Error → List Event
failures zero e = []
failures (suc n) e = connect_fails e ∷ timer_fires ∷ failures n e

fail_once :
    (t : Timing) (floor ceiling d : ℕ) (e : Error) (c : Connector)
    → Schedule t floor ceiling
    → is canceled e ≡ false
    → d ≤ ceiling
    → c.phase ≡ connecting
    → c.backoff ≡ pos d
    → step t (step t c (connect_fails e)) timer_fires
      ≡ record c { backoff = pos (min (d * 2) ceiling); waits = pos d ∷ c.waits }
unfolding step advance
fail_once t floor ceiling d e c s h k p b = ground (arith, next_backoff-eq t floor ceiling d s)

min-double-pow :
    (d n ceiling : ℕ) → min (min (d * 2) ceiling * 2 ^ n) ceiling ≡ min (d * 2 ^ suc n) ceiling
min-double-pow d n ceiling = elim (Bool-cases (leb (d * 2) ceiling)) [
  | inl e ↦ let h : min (d * 2) ceiling ≡ d * 2 = ground arith in rw (h, double-pow d n) refl
  | inr e ↦
      let h : min (d * 2) ceiling ≡ ceiling = ground arith in
      let over : ceiling < d * 2 = ground arith in
      rw (h, double-pow d n)
        (omega (
          arith,
          floor-le ceiling (2 ^ n) (pow_two_pos n),
          floor-le (d * 2) (2 ^ n) (pow_two_pos n),
        ))
]

run-failures :
    (t : Timing) (floor ceiling : ℕ) (e : Error) (n d : ℕ) (c : Connector)
    → Schedule t floor ceiling
    → is canceled e ≡ false
    → d ≤ ceiling
    → c.phase ≡ connecting
    → c.backoff ≡ pos d
    → ((run t c (failures n e)).backoff ≡ pos (min (d * 2 ^ n) ceiling))
      × ((run t c (failures n e)).phase ≡ connecting)
      × (length (run t c (failures n e)).waits ≡ n + length c.waits)
unfolding run
run-failures t floor ceiling e zero d c s h k p b = (b ∙ ap pos (omega arith), p, omega arith)
run-failures t floor ceiling e (suc n) d c s h k p b =
    let next = record c { backoff = pos (min (d * 2) ceiling); waits = pos d ∷ c.waits } in
    let (delay, phase, count) =
      run-failures t floor ceiling e n (min (d * 2) ceiling) next s h (omega arith) p refl in
    let same : run t c (failures (suc n) e) ≡ run t next (failures n e) =
      ap (λ q. run t q (failures n e)) (fail_once t floor ceiling d e c s h k p b) in
    rw same (delay ∙ ap pos (min-double-pow d n ceiling), phase, omega (arith, count))

-- From the start, attempt n + 1 of a row of failures is followed by a wait of the floor doubled n
-- times, cut at the ceiling: the delays double, and carry no jitter.
pub nth_wait :
    (t : Timing) (floor ceiling : ℕ) (e : Error) (n : ℕ)
    → Schedule t floor ceiling
    → is canceled e ≡ false
    → let before = run t (start t) (failures n e) in
      let after = step t before (connect_fails e) in
      (after.phase ≡ waiting)
      × (after.waits ≡ pos (min (floor * 2 ^ n) ceiling) ∷ before.waits)
      × (length before.waits ≡ n)
unfolding step advance start
nth_wait t floor ceiling e n s h =
    let (delay, phase, count) =
      run-failures t floor ceiling e n floor (start t) s h s.ordered refl s.is_floor in
    (rw (phase, advance, h) refl, rw (phase, advance, h, delay) refl, omega (arith, count))

-- Sessions that are established and end again, with their links and uptimes.
abbrev pub flaps : List (ℕ × ℤ) → List Event
flaps [] = []
flaps ((link, uptime) ∷ rest) = connects link ∷ session_ends uptime ∷ flaps rest

flap_once :
    (t : Timing) (link : ℕ) (uptime : ℤ) (c : Connector)
    → c.phase ≡ connecting
    → let d = step t (step t c (connects link)) (session_ends uptime) in
      (d.phase ≡ connecting) × (d.waits ≡ c.waits)
unfolding step advance clear_if after_session
flap_once t link uptime c p = ground arith

-- However many sessions in a row are established and end, after whatever uptime, the connector connects
-- again without any wait between them: a flapping session is not held back by the delay.
pub flaps_without_wait :
    (t : Timing) (sessions : List (ℕ × ℤ)) (c : Connector)
    → c.phase ≡ connecting
    → ((run t c (flaps sessions)).phase ≡ connecting) × ((run t c (flaps sessions)).waits ≡ c.waits)
unfolding run
flaps_without_wait t [] c p = (p, refl)
flaps_without_wait t ((link, uptime) ∷ rest) c p =
    let d = step t (step t c (connects link)) (session_ends uptime) in
    let once = flap_once t link uptime c p in
    let (phase, waits) = flaps_without_wait t rest d once.0 in (phase, waits ∙ once.1)
