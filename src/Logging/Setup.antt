-- ===== src/Logging/Setup.antt =====
-- internal/logging/logging.go: `NewSetup`.
pub mod Masks
pub mod Tests
use mhp.Prelude.{Bool, true, false, Option, none, some, List, [], ◌∷◌, Bytes, codes, if◌then◌else◌}
use mhp.Logging.Redacting.{Handler, new_redacting_handler, register_sensitive}
use mhp.Logging.DebugFile.{Dir, Reserved, reserved, open_debug_file}

pub data Level : Type 0 where
  level_debug level_info : Level

pub data Sink : Type 0 where
  stdout : Sink
  file : Bytes → Sink

-- The writers of the text handler and its level, the redacting handler around it, and the file that
-- `Closer` closes, if any.
pub record Logger : Type 0 where
  pub sinks : List Sink
  pub level : Level
  pub handler : Handler
  pub closer : Option Bytes

pub data Setup : Type 0 where
  -- with the directory afterwards
  ready : Logger → Dir → Setup
  aborted : Reserved → Setup

abbrev pub sensitive_keys : List Bytes
sensitive_keys =
    codes "token"
    ∷ codes "exit_token"
    ∷ codes "proxy_token"
    ∷ codes "tls_key"
    ∷ codes "payload"
    ∷ []

module _ (to_lower : Bytes → Bytes) where
  abbrev pub handler : Handler
  handler = register_sensitive to_lower new_redacting_handler sensitive_keys

  abbrev pub console : Logger
  console = record { sinks = stdout ∷ []; level = level_info; handler = handler; closer = none }

  abbrev pub debugging : Bytes → Logger
  debugging name = record {
    sinks = stdout ∷ file name ∷ [];
    level = level_debug;
    handler = handler;
    closer = some name;
  }

  abbrev pub with_file : Reserved → Setup
  with_file (reserved name dir) = ready (debugging name) dir
  with_file failure = aborted failure

  -- `base` is as in `open_debug_file`.
  unfoldable pub new_setup : Dir → Bytes → Bool → Setup
  new_setup dir base debug =
      let opened = open_debug_file dir base in if debug then with_file opened else ready console dir
