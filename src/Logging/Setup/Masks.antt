-- ===== src/Logging/Setup/Masks.antt =====
-- What a run's logger writes (internal/logging).
use mathlib.Core.Path.{subst}
use mhp.Prelude.{
  ◌≡◌, ◌↔◌, refl, sym, ap, ◌∙◌, Bool, true, false, none, some, List, [], ◌∷◌, Bytes, All, arith,
}
use mhp.Logging.Redacting.{Attrs, handle, Derivation, derive}
use mhp.Logging.Redacting.Clean.{IsClean, IsCleanContext, handle-IsClean}
use mhp.Logging.DebugFile.{
  Dir, Reserved, reserved, open_failed, exhausted, max_debug_collision_attempts, open_debug_file,
}
use mhp.Logging.DebugFile.Reserve.{FirstFree, open_debug_file_iff}
use mhp.Logging.Setup.{
  Logger, ready, stdout, file, level_debug, level_info, handler, sensitive_keys, console, debugging,
  with_file, new_setup,
}

-- The file of a logger, when it has one, is new.
abbrev pub Writes : Dir → Bytes → Bool → Logger → Dir → Type 0
Writes dir base false l after =
    (l.sinks ≡ stdout ∷ []) × (l.level ≡ level_info) × (l.closer ≡ none) × (after ≡ dir)
Writes dir base true l after =
    (name : Bytes) × (l.sinks ≡ stdout ∷ file name ∷ [])
    × (l.level ≡ level_debug)
    × (l.closer ≡ some name)
    × FirstFree dir base 0 max_debug_collision_attempts name after

ready_injective : (l m : Logger) (d e : Dir) → ready l d ≡ ready m e → (l ≡ m) × (d ≡ e)
ready_injective l m d e h = ground (arith, h)

module _ (to_lower : Bytes → Bytes) where
  with_file-Writes :
      (dir after : Dir) (base : Bytes) (r : Reserved) (l : Logger)
      → open_debug_file dir base ≡ r
      → with_file to_lower r ≡ ready l after
      → Writes dir base true l after × (l.handler ≡ handler to_lower)
  with_file-Writes dir after base (reserved name d) l h k =
      let (same, later) = ready_injective (debugging to_lower name) l d after k in
      subst (λ m. Writes dir base true m after × (m.handler ≡ handler to_lower)) same
        (
          (
            name,
            refl,
            refl,
            refl,
            (open_debug_file_iff dir after base name).0 (h ∙ ap (reserved name) later),
          ),
          refl,
        )
  with_file-Writes dir after base (open_failed name e) l h k = cc
  with_file-Writes dir after base exhausted l h k = cc

  new_setup-Writes :
      (dir after : Dir) (base : Bytes) (debug : Bool) (l : Logger)
      → new_setup to_lower dir base debug ≡ ready l after
      → Writes dir base debug l after × (l.handler ≡ handler to_lower)
  unfolding new_setup
  new_setup-Writes dir after base true l h =
      with_file-Writes dir after base (open_debug_file dir base) l refl h
  new_setup-Writes dir after base false l h =
      let (same, later) = ready_injective (console to_lower) l dir after h in
      subst (λ m. Writes dir base false m after × (m.handler ≡ handler to_lower)) same
        ((refl, refl, refl, sym later), refl)

  Writes-new_setup :
      (dir after : Dir) (base : Bytes) (debug : Bool) (l : Logger)
      → Writes dir base debug l after
      → l.handler ≡ handler to_lower
      → new_setup to_lower dir base debug ≡ ready l after
  unfolding new_setup
  Writes-new_setup dir after base true l (name, sinks, level, closer, free) h =
      rw ((open_debug_file_iff dir after base name).1 free)
        (ground (arith, sinks, level, closer, h))
  Writes-new_setup dir after base false l (sinks, level, closer, same) h =
      ground (arith, sinks, level, closer, same, h)

-- `NewSetup` returns a logger exactly when it is the console's, at the info level and without a file,
-- for a run without the debug flag; or, with the flag, when a debug file can be reserved, and then it
-- writes at the debug level to the console and that new file, which its closer closes.
pub new_setup_iff :
    (to_lower : Bytes → Bytes) (dir after : Dir) (base : Bytes) (debug : Bool) (l : Logger)
    → (new_setup to_lower dir base debug ≡ ready l after)
      ↔ (Writes dir base debug l after × (l.handler ≡ handler to_lower))
new_setup_iff to_lower dir after base debug l = (
  new_setup-Writes to_lower dir after base debug l,
  λ (writes, same). Writes-new_setup to_lower dir after base debug l writes same,
)

-- Whatever children are derived from a logger that `NewSetup` returns, the value of every attribute
-- under one of the five registered keys is masked, in whatever letter case it stands and at every depth.
pub new_setup-IsClean :
    (to_lower : Bytes → Bytes) (dir after : Dir) (base : Bytes) (debug : Bool) (l : Logger)
    (ds : List Derivation) (attrs : Attrs)
    → new_setup to_lower dir base debug ≡ ready l after
    → let e = handle to_lower (derive to_lower l.handler ds) attrs in
      IsClean to_lower sensitive_keys e.attrs
      × All (IsCleanContext to_lower sensitive_keys) e.context
new_setup-IsClean to_lower dir after base debug l ds attrs h =
    rw ((new_setup-Writes to_lower dir after base debug l h).1)
      (handle-IsClean to_lower sensitive_keys ds attrs)
