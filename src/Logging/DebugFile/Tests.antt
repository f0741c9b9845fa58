-- ===== src/Logging/DebugFile/Tests.antt =====
-- Debug files at concrete inputs.
use mhp.Prelude.{◌≡◌, ◌↔◌, refl, none, [], ◌∷◌, Bytes, bytes_eq, codes}
use mhp.Logging.DebugFile.{
  Dir, max_debug_collision_attempts, reserved, attempts, open_debug_file, digits,
}
use mhp.Logging.DebugFile.Reserve.{FirstFree, open_debug_file_iff}

abbrev base : Bytes
base = codes "d.txt"

-- Two runs of the same second have taken the first two names.
abbrev dir : Dir
dir = record { names = base ∷ codes "d.txt.1" ∷ []; obstacle = λ name. none }

third_name :
    open_debug_file dir base
    ≡ reserved (codes "d.txt.2") (record dir { names = codes "d.txt.2" ∷ dir.names })
unfolding open_debug_file attempts digits bytes_eq
third_name = refl

open_debug_file_iff_at_input :
    let after = record dir { names = codes "d.txt.2" ∷ dir.names } in
    (open_debug_file dir base ≡ reserved (codes "d.txt.2") after)
    ↔ FirstFree dir base 0 max_debug_collision_attempts (codes "d.txt.2") after
open_debug_file_iff_at_input =
    open_debug_file_iff dir (record dir { names = codes "d.txt.2" ∷ dir.names }) base
      (codes "d.txt.2")
