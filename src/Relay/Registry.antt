-- ===== src/Relay/Registry.antt =====
-- internal/relay/registry.go. A session is the number of its `*yamux.Session`, `none` is nil; a
-- method returns its results with the new registry. The mutex makes each call one step.
pub mod Isolation
pub mod Tests
use mhp.Prelude.{
  ℕ, ◌+◌, ◌%◌, ◌^◌, ◌≡◌, Bool, true, false, not, ◌==◌, Option, none, some, List, [], ◌∷◌,
  if◌then◌else◌,
}
use mhp.Config.{Mode, mode_eq}

pub record Slot : Type 0 where
  pub mux : Option ℕ
  pub gen : ℕ  -- uint64

-- `map[Mode]*slot`: a missing key is `none`.
pub record Registry : Type 0 where
  pub slots : Mode → Option Slot

unfoldable pub new_registry : Registry
new_registry = record { slots = λ m. none }

abbrev pub store : (Mode → Option Slot) → Mode → Slot → Mode → Option Slot
store slots m e k = if mode_eq m k then some e else slots k

-- The slot that `Register` finds, or the zero one that it creates.
abbrev pub found : Option Slot → Slot
found none = record { mux = none; gen = 0 }
found (some e) = e

unfoldable pub bump : ℕ → ℕ
bump gen = (gen + 1) % 2 ^ 64

unfoldable pub register : Registry → Mode → Option ℕ → (Option ℕ × ℕ) × Registry
unfolding bump
register r mode mux =
    let e = found (r.slots mode) in
    let gen = bump e.gen in
    ((e.mux, gen), record r { slots = store r.slots mode (record { mux = mux; gen = gen }) })

abbrev occupant : Option Slot → Option (ℕ × ℕ)
occupant none = none
occupant (some e) = elim e.mux [ none ↦ none | some s ↦ some (s, e.gen) ]

unfoldable pub current : Registry → Mode → Option (ℕ × ℕ)
current r mode = occupant (r.slots mode)

abbrev superseded : Option Slot → ℕ → Bool
superseded none gen = true
superseded (some e) gen = elim e.mux [ none ↦ true | some s ↦ not (e.gen == gen) ]

unfoldable pub stale : Registry → Mode → ℕ → Bool
stale r mode gen = superseded (r.slots mode) gen

abbrev release : Registry → Mode → ℕ → Option Slot → Registry
release r mode gen none = r
release r mode gen (some e) =
    if e.gen == gen
    then record r { slots = store r.slots mode (record { mux = none; gen = bump e.gen }) }
    else r

unfoldable pub vacate : Registry → Mode → ℕ → Registry
unfolding bump
vacate r mode gen = release r mode gen (r.slots mode)

-- A history of the calls that change the registry.
pub data Op : Type 0 where
  registers : Mode → Option ℕ → Op
  vacates : Mode → ℕ → Op

unfoldable pub step : Registry → Op → Registry
step r (registers m mux) = (register r m mux).1
step r (vacates m gen) = vacate r m gen

unfoldable pub run : Registry → List Op → Registry
unfolding step
run r [] = r
run r (op ∷ ops) = run (step r op) ops
