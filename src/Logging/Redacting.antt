-- ===== src/Logging/Redacting.antt =====
-- internal/logging/redacting.go: the handler that masks sensitive attributes. The wrapped handler is
-- what it was given, in order; how it prints is the text handler's part. `Value.Resolve` gives up on
-- more than 100 lazy values in a row, and `Record.AddAttrs` leaves out empty groups; neither is here.
pub mod Clean
pub mod Tests
use mhp.Prelude.{
  Bool, true, false, ◌||◌, List, [], ◌∷◌, ◌++◌, Bytes, bytes_eq, codes, map, if◌then◌else◌,
}

-- A `slog.Attr` is a key with its value; `lazy` is a LogValuer with what it resolves to, the rest
-- of the values are leaves under their text.
mutual
  pub data Value : Type 0 where
    text : Bytes → Value
    lazy : Value → Value
    group : Attrs → Value

  pub data Attrs : Type 0 where
    empty : Attrs
    attr : Bytes → Value → Attrs → Attrs

abbrev pub redacted : Value
redacted = text (codes "[redacted]")

-- What a handler derived by `WithAttrs` and `WithGroup` has fixed, newest first.
pub data Context : Type 0 where
  attrs_of : Attrs → Context
  group_of : Bytes → Context

-- What the wrapped handler is given: its context and the record.
pub record Emitted : Type 0 where
  pub context : List Context
  pub attrs : Attrs

-- The map from sensitive keys to true, as the list of its keys, and the wrapped handler.
pub record Handler : Type 0 where
  pub sensitive : List Bytes
  pub context : List Context

unfoldable pub new_redacting_handler : Handler
new_redacting_handler = record { sensitive = []; context = [] }

abbrev pub member : Bytes → List Bytes → Bool
member k [] = false
member k (s ∷ ss) = bytes_eq k s || member k ss

-- The ways to derive a child handler.
pub data Derivation : Type 0 where
  adds : Attrs → Derivation
  opens : Bytes → Derivation

-- `to_lower` is `strings.ToLower`.
module _ (to_lower : Bytes → Bytes) where
  unfoldable pub register_sensitive : Handler → List Bytes → Handler
  register_sensitive h keys = record h { sensitive = map to_lower keys ++ h.sensitive }

  unfoldable pub is_sensitive : List Bytes → Bytes → Bool
  is_sensitive sensitive key = member (to_lower key) sensitive

  -- `redact` on a value whose key is not sensitive, and on each attribute of a list.
  unfoldable mutual
    pub redact_value : List Bytes → Value → Value
    redact_value s (text t) = text t
    redact_value s (lazy v) = redact_value s v
    redact_value s (group attrs) = group (redact s attrs)

    pub redact : List Bytes → Attrs → Attrs
    redact s empty = empty
    redact s (attr key v attrs) =
        let value = redact_value s v in
        attr key (if is_sensitive s key then redacted else value) (redact s attrs)

  unfoldable pub handle : Handler → Attrs → Emitted
  unfolding redact
  handle h attrs = record { context = h.context; attrs = redact h.sensitive attrs }

  unfoldable pub with_attrs : Handler → Attrs → Handler
  unfolding redact
  with_attrs h attrs = record h { context = attrs_of (redact h.sensitive attrs) ∷ h.context }

  unfoldable pub with_group : Handler → Bytes → Handler
  with_group h name = record h { context = group_of name ∷ h.context }

  unfoldable pub derive : Handler → List Derivation → Handler
  unfolding with_attrs with_group
  derive h [] = h
  derive h (adds attrs ∷ ds) = derive (with_attrs h attrs) ds
  derive h (opens name ∷ ds) = derive (with_group h name) ds
