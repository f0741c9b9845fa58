-- ===== src/Relay/Registry/Isolation.antt =====
-- Generation isolation of internal/relay/registry.go: what one registration can do to another.
use mhp.Prelude.{
  ℕ, suc, ◌+◌, ◌%◌, ◌^◌, ◌≤◌, ◌<◌, ◌≡◌, refl, ◌⊎◌, inl, inr, ◌≢◌, Bool, true, false, not, ◌&&◌,
  ◌||◌, ◌==◌, if◌then◌else◌, Bool-cases, Option, none, some, List, [], ◌∷◌, length, arith,
}
use mhp.Config.{Mode, mode_eq, mode_eq_iff, mode_eq_refl}
use mhp.Relay.Registry.{
  Registry, found, bump, register, current, stale, vacate, Op, registers, vacates, step, run,
}

-- The generation counter of a role; a role without a slot counts as generation 0.
abbrev pub gen_of : Registry → Mode → ℕ
gen_of r m = (found (r.slots m)).gen

-- Just after a registration its session is current under the returned generation and not stale,
-- the previous holder is handed back, and what is current in any other role is unchanged.
pub register-current :
    (r : Registry) (m : Mode) (s : ℕ)
    → let ((prev, gen), r') = register r m (some s) in
      (current r' m ≡ some (s, gen))
      × (stale r' m gen ≡ false)
      × (prev ≡ (found (r.slots m)).mux)
      × ((k : Mode) → mode_eq m k ≡ false → current r' k ≡ current r k)
unfolding register current stale
register-current r m s =
    (ground (arith, mode_eq_refl m), ground (arith, mode_eq_refl m), refl, λ k h. ground arith)

-- While a session is current under a generation, `Stale` is false of that generation alone.
pub stale-current :
    (r : Registry) (m : Mode) (s gen g : ℕ)
    → current r m ≡ some (s, gen)
    → stale r m g ≡ not (gen == g)
unfolding current stale
stale-current r m s gen g h = ground arith

-- Some call of the history registers a session of the role.
abbrev pub reregistered : Mode → List Op → Bool
reregistered m [] = false
reregistered m (registers k mux ∷ ops) = mode_eq k m || reregistered m ops
reregistered m (vacates k g ∷ ops) = reregistered m ops

-- Some call of the history vacates the role under the generation.
abbrev pub vacated : Mode → ℕ → List Op → Bool
vacated m gen [] = false
vacated m gen (registers k mux ∷ ops) = vacated m gen ops
vacated m gen (vacates k g ∷ ops) = (mode_eq k m && g == gen) || vacated m gen ops

-- A history moves the counter of a role forward, by at most one for each call.
record Advance (r r' : Registry) (m : Mode) (ops : List Op) : Type 0 where
  by : ℕ
  few : by ≤ length ops
  moved : reregistered m ops ≡ true → 0 < by
  lands : gen_of r' m ≡ (gen_of r m + by) % 2 ^ 64

register-gen :
    (r : Registry) (k m : Mode) (mux : Option ℕ)
    → gen_of (step r (registers k mux)) m ≡ (if mode_eq k m then bump (gen_of r m) else gen_of r m)
unfolding step register
register-gen r k m mux = ground (arith, mode_eq_iff k m)

vacate-gen :
    (r : Registry) (k m : Mode) (g : ℕ)
    → (gen_of (step r (vacates k g)) m ≡ gen_of r m)
      ⊎ (gen_of (step r (vacates k g)) m ≡ bump (gen_of r m))
unfolding step vacate
vacate-gen r k m g = ground (arith, mode_eq_iff k m)

stay :
    (r r₁ r' : Registry) (m : Mode) (op : Op) (ops : List Op)
    → gen_of r₁ m ≡ gen_of r m
    → (reregistered m (op ∷ ops) ≡ true → reregistered m ops ≡ true)
    → Advance r₁ r' m ops
    → Advance r r' m (op ∷ ops)
stay r r₁ r' m op ops e f a = record {
  by = a.by;
  few = omega arith;
  moved = λ h. a.moved (f h);
  lands = omega (arith, a.lands);
}

advance :
    (r r₁ r' : Registry) (m : Mode) (op : Op) (ops : List Op)
    → gen_of r₁ m ≡ bump (gen_of r m)
    → Advance r₁ r' m ops
    → Advance r r' m (op ∷ ops)
unfolding bump
advance r r₁ r' m op ops e a = record {
  by = suc a.by;
  few = omega arith;
  moved = λ h. omega arith;
  lands = omega (arith, a.lands);
}

bump-lt : (g : ℕ) → bump g < 2 ^ 64
unfolding bump
bump-lt g = omega arith

run-Advance :
    (r : Registry) (m : Mode) (ops : List Op) → gen_of r m < 2 ^ 64 → Advance r (run r ops) m ops
unfolding run
run-Advance r m [] h = record { by = 0; few = omega arith; moved = λ e. cc; lands = omega arith }
run-Advance r m (registers k mux ∷ ops) h = elim (Bool-cases (mode_eq k m)) [
  | inl e ↦
      let g : gen_of (step r (registers k mux)) m ≡ bump (gen_of r m) =
        ground (arith, register-gen r k m mux) in
      advance r (step r (registers k mux)) _ m _ ops g
        (run-Advance (step r (registers k mux)) m ops (omega (arith, bump-lt (gen_of r m))))
  | inr e ↦
      let g : gen_of (step r (registers k mux)) m ≡ gen_of r m =
        ground (arith, register-gen r k m mux) in
      stay r (step r (registers k mux)) _ m (registers k mux) ops g (λ f. ground arith)
        (run-Advance (step r (registers k mux)) m ops (omega arith))
]
run-Advance r m (vacates k g ∷ ops) h = elim (vacate-gen r k m g) [
  | inl e ↦
      stay r (step r (vacates k g)) _ m (vacates k g) ops e (λ f. f)
        (run-Advance (step r (vacates k g)) m ops (omega arith))
  | inr e ↦
      advance r (step r (vacates k g)) _ m (vacates k g) ops e
        (run-Advance (step r (vacates k g)) m ops (omega (arith, bump-lt (gen_of r m))))
]

vacate_other : (r : Registry) (m : Mode) (g : ℕ) → gen_of r m ≢ g → vacate r m g ≡ r
unfolding vacate
vacate_other r m g h = ground arith

stale_other : (r : Registry) (m : Mode) (g : ℕ) → gen_of r m ≢ g → stale r m g ≡ true
unfolding stale
stale_other r m g h = ground arith

register_gen :
    (r : Registry) (m : Mode) (mux : Option ℕ)
    → (gen_of (register r m mux).1 m ≡ (register r m mux).0.1) × ((register r m mux).0.1 < 2 ^ 64)
unfolding register
register_gen r m mux = ground (arith, mode_eq_refl m, bump-lt (found (r.slots m)).gen)

-- Once the role has been registered again, by any history of fewer than 2^64 calls, the old generation
-- is stale and vacating it changes nothing.
pub vacate_superseded :
    (r : Registry) (m : Mode) (mux : Option ℕ) (ops : List Op)
    → length ops < 2 ^ 64
    → reregistered m ops ≡ true
    → let ((prev, gen), r₁) = register r m mux in
      let r₂ = run r₁ ops in (vacate r₂ m gen ≡ r₂) × (stale r₂ m gen ≡ true)
vacate_superseded r m mux ops h again = (vacate_other _ m _ differs, stale_other _ m _ differs)
  where
    start :
        (gen_of (register r m mux).1 m ≡ (register r m mux).0.1) × ((register r m mux).0.1 < 2 ^ 64)
    start = register_gen r m mux

    differs : gen_of (run (register r m mux).1 ops) m ≢ (register r m mux).0.1
    differs e =
        let a = run-Advance (register r m mux).1 m ops (omega (arith, start.0, start.1)) in
        omega (arith, a.lands, a.few, a.moved again, start.0, start.1)

keep_current :
    (r : Registry) (m : Mode) (s gen : ℕ) (op : Op)
    → current r m ≡ some (s, gen)
    → reregistered m (op ∷ []) ≡ false
    → vacated m gen (op ∷ []) ≡ false
    → current (step r op) m ≡ some (s, gen)
unfolding step register vacate current
keep_current r m s gen (registers k mux) h a b = ground (arith, mode_eq_iff k m)
keep_current r m s gen (vacates k g) h a b = ground (arith, mode_eq_iff k m)

vacate_own :
    (r : Registry) (m : Mode) (s gen : ℕ)
    → current r m ≡ some (s, gen)
    → current (vacate r m gen) m ≡ none
unfolding vacate current
vacate_own r m s gen h = ground (arith, mode_eq_refl m)

-- A current session stays current under any calls that neither register its role again nor vacate
-- its own generation, and vacating that generation then empties the role.
pub current_undisturbed :
    (r : Registry) (m : Mode) (s gen : ℕ) (ops : List Op)
    → current r m ≡ some (s, gen)
    → reregistered m ops ≡ false
    → vacated m gen ops ≡ false
    → (current (run r ops) m ≡ some (s, gen)) × (current (vacate (run r ops) m gen) m ≡ none)
unfolding run
current_undisturbed r m s gen [] h a b = (h, vacate_own r m s gen h)
current_undisturbed r m s gen (registers k mux ∷ ops) h a b =
    current_undisturbed (step r (registers k mux)) m s gen ops
      (keep_current r m s gen (registers k mux) h (ground arith) refl) (ground arith) b
current_undisturbed r m s gen (vacates k g ∷ ops) h a b =
    current_undisturbed (step r (vacates k g)) m s gen ops
      (keep_current r m s gen (vacates k g) h refl (ground arith)) a (ground arith)
