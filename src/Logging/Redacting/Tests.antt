-- ===== src/Logging/Redacting/Tests.antt =====
-- The redacting handler at concrete inputs.
use mhp.Prelude.{
  ℕ, ◌+◌, ◌&&◌, ◌≡◌, refl, List, [], ◌∷◌, Bytes, bytes_eq, codes, map, leb, All, if◌then◌else◌,
}
use mhp.Logging.Redacting.{
  text, lazy, group, Attrs, empty, attr, redacted, Handler, new_redacting_handler,
  register_sensitive, is_sensitive, redact, handle, Derivation, adds, opens, derive,
}
use mhp.Logging.Redacting.Clean.{IsClean, IsCleanContext, IsPlain, handle-IsClean, handle_plain}

-- `strings.ToLower` on ASCII.
abbrev lower_letter : ℕ → ℕ
lower_letter c = if leb b'A' c && leb c b'Z' then c + 32 else c

abbrev to_lower : Bytes → Bytes
to_lower key = map lower_letter key

abbrev secret : Attrs
secret = attr (codes "TOKEN") (text (codes "hunter2")) empty

abbrev handler : Handler
handler = register_sensitive to_lower new_redacting_handler (codes "Token" ∷ [])

abbrev derivations : List Derivation
derivations = adds secret ∷ opens (codes "session") ∷ []

redact_nested :
    redact to_lower handler.sensitive (attr (codes "user") (lazy (group secret)) empty)
    ≡ attr (codes "user") (group (attr (codes "TOKEN") redacted empty)) empty
unfolding redact register_sensitive new_redacting_handler is_sensitive bytes_eq
redact_nested = refl

handle-IsClean_example :
    IsClean to_lower
      (codes "Token" ∷ [])
      (handle to_lower (derive to_lower handler derivations) secret).attrs
    × All
        (IsCleanContext to_lower (codes "Token" ∷ []))
        (handle to_lower (derive to_lower handler derivations) secret).context
handle-IsClean_example = handle-IsClean to_lower (codes "Token" ∷ []) derivations secret

handle_plain_at_input :
    handle to_lower handler (attr (codes "id") (text []) empty)
    ≡ record { context = []; attrs = attr (codes "id") (text []) empty }
unfolding IsPlain register_sensitive new_redacting_handler is_sensitive bytes_eq
handle_plain_at_input =
    handle_plain to_lower handler (attr (codes "id") (text []) empty) (refl, tt, tt)
