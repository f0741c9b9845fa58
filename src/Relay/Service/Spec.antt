-- ===== src/Relay/Service/Spec.antt =====
-- Who holds a role of the relay, by the order of the starts alone: the specification of the sessions
-- of internal/relay/service.go.
use mhp.Prelude.{
  ℕ, ◌+◌, Bool, false, ◌&&◌, ◌==◌, Option, none, some, List, [], ◌∷◌, get_elem?, erase_idx,
  if◌then◌else◌,
}
use mhp.Config.{Mode, mode_eq}
use mhp.Relay.Service.{Client, Event, accepts, begins, finishes, leaves, shuts_down}

-- A goroutine that serves, by its place in the order of the starts.
pub record Started : Type 0 where
  pub role : Mode
  pub order : ℕ

-- Who holds a role: the session that started last in it, with its place in the order, until it ends.
pub record Spec : Type 0 where
  pub begun : ℕ
  pub pending : List Client
  pub serving : List Started
  pub holder : Mode → Option (ℕ × ℕ)

abbrev pub holds : Option (ℕ × ℕ) → ℕ → Bool
holds none order = false
holds (some (mux, place)) order = place == order

abbrev pub take_over : Mode → ℕ × ℕ → (Mode → Option (ℕ × ℕ)) → Mode → Option (ℕ × ℕ)
take_over r h holder m = if mode_eq r m then some h else holder m

abbrev pub give_up : Mode → ℕ → (Mode → Option (ℕ × ℕ)) → Mode → Option (ℕ × ℕ)
give_up r order holder m = if mode_eq r m && holds (holder m) order then none else holder m

abbrev pub spec_begin : Spec → ℕ → Option Client → Spec
spec_begin t n none = t
spec_begin t n (some c) = record {
  begun = t.begun + 1;
  pending = erase_idx t.pending n;
  serving = record { role = c.role; order = t.begun } ∷ t.serving;
  holder = take_over c.role (c.mux, t.begun) t.holder;
}

abbrev pub spec_finish : Spec → ℕ → Option Started → Spec
spec_finish t n none = t
spec_finish t n (some v) = record t {
  serving = erase_idx t.serving n;
  holder = give_up v.role v.order t.holder;
}

unfoldable pub spec_step : Spec → Event → Spec
spec_step t (accepts c) = record t { pending = c ∷ t.pending }
spec_step t (begins n) = spec_begin t n (get_elem? t.pending n)
spec_step t (finishes n) = spec_finish t n (get_elem? t.serving n)
spec_step t (leaves n) = t
spec_step t shuts_down = t

unfoldable pub spec_run : Spec → List Event → Spec
spec_run t [] = t
spec_run t (event ∷ events) = spec_run (spec_step t event) events

abbrev pub empty_spec : Spec
empty_spec = record { begun = 0; pending = []; serving = []; holder = λ m. none }

abbrev pub session_of : Option (ℕ × ℕ) → Option ℕ
session_of none = none
session_of (some (mux, place)) = some mux
