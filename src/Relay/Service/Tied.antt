-- ===== src/Relay/Service/Tied.antt =====
-- A worker and its counterpart in the specification (internal/relay/service.go).
use mhp.Prelude.{
  ℕ, suc, ◌+◌, ◌^◌, ◌≤◌, ◌<◌, ◌≡◌, ◌∙◌, inl, inr, ◌&&◌, ◌==◌, Bool-cases, Option, none, some, List,
  [], ◌∷◌, arith, if◌then◌else◌,
}
use mhp.Config.{Mode, mode_eq, mode_eq_iff}
use mhp.Relay.Registry.{Registry, found, bump, register, vacate}
use mhp.Relay.Registry.Isolation.{gen_of}
use mhp.Relay.Service.{Client, Worker}
use mhp.Relay.Service.Spec.{Started, Spec, holds, spec_begin, spec_finish}

abbrev pub mux_of : Registry → Mode → Option ℕ
mux_of reg m = (found (reg.slots m)).mux

-- A worker and its counterpart: its generation is current exactly while the counterpart holds the role.
pub record Tied (reg : Registry) (t : Spec) (w : Worker) (v : Started) : Type 0 where
  pub same_role : v.role ≡ w.client.role
  pub positive : 0 < w.gen
  pub not_ahead : w.gen ≤ gen_of reg w.client.role
  pub earlier : v.order < t.begun
  pub both : (w.gen == gen_of reg w.client.role) ≡ holds (t.holder w.client.role) v.order

abbrev pub AllTied : Registry → Spec → List Worker → List Started → Type 0
AllTied reg t [] [] = Unit
AllTied reg t (w ∷ ws) (v ∷ vs) = Tied reg t w v × AllTied reg t ws vs
AllTied reg t _ _ = ⊥

pub gen_of-register :
    (reg : Registry) (r m : Mode) (mux : ℕ)
    → gen_of reg r + 1 < 2 ^ 64
    → gen_of (register reg r (some mux)).1 m
      ≡ (if mode_eq r m then gen_of reg m + 1 else gen_of reg m)
unfolding register bump
gen_of-register reg r m mux h = ground (arith, mode_eq_iff r m)

pub mux_of-register :
    (reg : Registry) (r m : Mode) (mux : ℕ)
    → mux_of (register reg r (some mux)).1 m ≡ (if mode_eq r m then some mux else mux_of reg m)
unfolding register
mux_of-register reg r m mux = ground (arith, mode_eq_iff r m)

pub gen_of-vacate :
    (reg : Registry) (r m : Mode) (g : ℕ)
    → 0 < g
    → gen_of reg r + 1 < 2 ^ 64
    → gen_of (vacate reg r g) m
      ≡ (if mode_eq r m && g == gen_of reg m then gen_of reg m + 1 else gen_of reg m)
unfolding vacate bump
gen_of-vacate reg r m g h k = ground (arith, mode_eq_iff r m)

pub mux_of-vacate :
    (reg : Registry) (r m : Mode) (g : ℕ)
    → 0 < g
    → mux_of (vacate reg r g) m ≡ (if mode_eq r m && g == gen_of reg m then none else mux_of reg m)
unfolding vacate
mux_of-vacate reg r m g h = ground (arith, mode_eq_iff r m)

begin-Tied :
    (left : ℕ) (reg : Registry) (t : Spec) (c : Client) (n : ℕ) (w : Worker) (v : Started)
    → ((m : Mode) → gen_of reg m + suc left < 2 ^ 64)
    → Tied reg t w v
    → Tied (register reg c.role (some c.mux)).1 (spec_begin t n (some c)) w v
begin-Tied left reg t c n w v room e =
    let g = gen_of-register reg c.role w.client.role c.mux (omega (arith, room c.role)) in
    record {
      same_role = e.same_role;
      positive = e.positive;
      not_ahead = ground (arith, g, e.not_ahead);
      earlier = omega (arith, e.earlier);
      both = ground (arith, g, e.not_ahead, e.earlier, e.both);
    }

pub begin_all :
    (left : ℕ) (reg : Registry) (t : Spec) (c : Client) (n : ℕ) (ws : List Worker)
    (vs : List Started)
    → ((m : Mode) → gen_of reg m + suc left < 2 ^ 64)
    → AllTied reg t ws vs
    → AllTied (register reg c.role (some c.mux)).1 (spec_begin t n (some c)) ws vs
begin_all left reg t c n [] [] room e = tt
begin_all left reg t c n (w ∷ ws) (v ∷ vs) room e =
    (begin-Tied left reg t c n w v room e.0, begin_all left reg t c n ws vs room e.1)
begin_all left reg t c n [] (v ∷ vs) room e = absurd e
begin_all left reg t c n (w ∷ ws) [] room e = absurd e

-- In the role of the worker that ends, its generation is given up exactly when its counterpart is.
given_up :
    (h : Option (ℕ × ℕ)) (gone g gen place order : ℕ)
    → (gone == gen) ≡ holds h place
    → (g == gen) ≡ holds h order
    → g ≤ gen
    → (g == (if gone == gen then gen + 1 else gen))
      ≡ holds (if holds h place then none else h) order
given_up h gone g gen place order e f k = elim (Bool-cases (holds h place)) [
  | inl q ↦ rw (e ∙ q, q) (ground arith)
  | inr q ↦ rw (e ∙ q, q) f
]

-- The worker that ends may be any that is tied.
pub finish-Tied :
    (left : ℕ) (reg : Registry) (t : Spec) (n : ℕ) (w x : Worker) (v y : Started)
    → ((m : Mode) → gen_of reg m + suc left < 2 ^ 64)
    → Tied reg t w v
    → Tied reg t x y
    → Tied (vacate reg w.client.role w.gen) (spec_finish t n (some v)) x y
finish-Tied left reg t n w x v y room e f =
    let g =
      gen_of-vacate reg w.client.role x.client.role w.gen e.positive
        (omega (arith, room w.client.role)) in
    record {
      same_role = f.same_role;
      positive = f.positive;
      not_ahead = ground (arith, g, f.not_ahead);
      earlier = f.earlier;
      both =
          rw (g, e.same_role)
            (elim (Bool-cases (mode_eq w.client.role x.client.role)) [
              | inl q ↦
                  let r = (mode_eq_iff w.client.role x.client.role).0 q in
                  rw q (
                    given_up (t.holder x.client.role) w.gen x.gen (gen_of reg x.client.role) v.order
                      y.order (rw r at e.both) f.both f.not_ahead)
              | inr q ↦ rw q f.both
            ]);
    }
