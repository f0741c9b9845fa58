-- ===== src/Logging/Setup/Tests.antt =====
-- The logging of a run (internal/logging) at concrete inputs.
use mhp.Prelude.{
  ℕ, ◌+◌, ◌&&◌, ◌≡◌, ◌↔◌, refl, true, none, [], ◌∷◌, Bytes, All, map, leb, codes, bytes_eq,
  if◌then◌else◌,
}
use mhp.Logging.Redacting.{Attrs, empty, attr, text, handle, opens, derive}
use mhp.Logging.Redacting.Clean.{IsClean, IsCleanContext}
use mhp.Logging.DebugFile.{Dir, open_debug_file, attempts, digits, open_excl}
use mhp.Logging.Setup.{handler, sensitive_keys, debugging, ready, new_setup}
use mhp.Logging.Setup.Masks.{Writes, new_setup_iff, new_setup-IsClean}

abbrev lower_letter : ℕ → ℕ
lower_letter c = if leb b'A' c && leb c b'Z' then c + 32 else c

abbrev to_lower : Bytes → Bytes
to_lower key = map lower_letter key

abbrev dir : Dir
dir = record { names = codes "d.txt" ∷ []; obstacle = λ name. none }

abbrev after : Dir
after = record dir { names = codes "d.txt.1" ∷ dir.names }

second_file :
    new_setup to_lower dir (codes "d.txt") true ≡ ready (debugging to_lower (codes "d.txt.1")) after
unfolding new_setup open_debug_file attempts digits open_excl bytes_eq
second_file = refl

new_setup_iff_example :
    (new_setup to_lower dir (codes "d.txt") true
      ≡ ready (debugging to_lower (codes "d.txt.1")) after)
    ↔ (Writes dir (codes "d.txt") true (debugging to_lower (codes "d.txt.1")) after
        × (handler to_lower ≡ handler to_lower))
new_setup_iff_example =
    new_setup_iff to_lower dir after (codes "d.txt") true (debugging to_lower (codes "d.txt.1"))

abbrev attrs : Attrs
attrs = attr (codes "Token") (text (codes "hunter2")) empty

new_setup-IsClean_at_input :
    let e =
      handle to_lower (derive to_lower (handler to_lower) (opens (codes "relay") ∷ [])) attrs in
    IsClean to_lower sensitive_keys e.attrs × All (IsCleanContext to_lower sensitive_keys) e.context
new_setup-IsClean_at_input =
    new_setup-IsClean to_lower dir after (codes "d.txt") true (debugging to_lower (codes "d.txt.1"))
      (opens (codes "relay") ∷ []) attrs second_file
