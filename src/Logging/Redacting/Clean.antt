-- ===== src/Logging/Redacting/Clean.antt =====
-- What the redacting handler lets through (internal/logging/redacting.go).
use mhp.Prelude.{
  ◌≡◌, refl, ap, ◌⊎◌, true, false, Bool-cases, inl, inr, List, [], ◌∷◌, ◌++◌, map, Bytes,
  bytes_eq_iff, All, arith, if◌then◌else◌,
}
use mhp.Logging.Redacting.{
  Value, text, lazy, group, Attrs, empty, attr, redacted, Context, attrs_of, group_of, Handler,
  new_redacting_handler, register_sensitive, is_sensitive, redact_value, redact, handle, with_attrs,
  with_group, Derivation, adds, opens, derive,
}

module _ (to_lower : Bytes → Bytes) where
  -- The key is one of these, in whatever letter case.
  abbrev pub IsListed : List Bytes → Bytes → Type 0
  IsListed [] key = ⊥
  IsListed (k ∷ keys) key = (to_lower key ≡ to_lower k) ⊎ IsListed keys key

  listed-is_sensitive :
      (keys : List Bytes) (key : Bytes)
      → IsListed keys key
      → is_sensitive to_lower (map to_lower keys ++ []) key ≡ true
  unfolding is_sensitive
  listed-is_sensitive [] key h = absurd h
  listed-is_sensitive (k ∷ keys) key (inl e) =
      ground (arith, (bytes_eq_iff (to_lower key) (to_lower k)).1 e)
  listed-is_sensitive (k ∷ keys) key (inr e) = ground (arith, listed-is_sensitive keys key e)

module _ (to_lower : Bytes → Bytes) (keys : List Bytes) where
  -- At every depth a listed key has the mask as its value, and no lazy value is left that could
  -- still resolve to something else.
  unfoldable mutual
    pub IsCleanValue : Value → Type 0
    IsCleanValue (text t) = Unit
    IsCleanValue (lazy v) = ⊥
    IsCleanValue (group attrs) = IsClean attrs

    pub IsClean : Attrs → Type 0
    IsClean empty = Unit
    IsClean (attr key v attrs) =
        (IsListed to_lower keys key → v ≡ redacted) × IsCleanValue v × IsClean attrs

  abbrev pub IsCleanContext : Context → Type 0
  IsCleanContext (attrs_of attrs) = IsClean attrs
  IsCleanContext (group_of name) = Unit

  -- The sensitive keys of the handler cover those listed.
  abbrev Covers : List Bytes → Type 0
  Covers s = (key : Bytes) → IsListed to_lower keys key → is_sensitive to_lower s key ≡ true

  masked :
      (s : List Bytes) (key : Bytes) (v : Value)
      → Covers s
      → IsCleanValue v
      → (IsListed to_lower keys key
          → (if is_sensitive to_lower s key then redacted else v) ≡ redacted)
        × IsCleanValue (if is_sensitive to_lower s key then redacted else v)
  unfolding IsCleanValue
  masked s key v covers h = elim (Bool-cases (is_sensitive to_lower s key)) [
    | inl e ↦ rw e (λ q. refl, tt)
    | inr e ↦ (λ q. rw (covers key q) refl, rw e h)
  ]

  mutual
    unfolding IsClean redact

    redact_value-IsCleanValue :
        (s : List Bytes) (v : Value) → Covers s → IsCleanValue (redact_value to_lower s v)
    redact_value-IsCleanValue s (text t) covers = tt
    redact_value-IsCleanValue s (lazy v) covers = redact_value-IsCleanValue s v covers
    redact_value-IsCleanValue s (group attrs) covers = redact-IsClean s attrs covers

    redact-IsClean : (s : List Bytes) (attrs : Attrs) → Covers s → IsClean (redact to_lower s attrs)
    redact-IsClean s empty covers = tt
    redact-IsClean s (attr key v attrs) covers =
        let (mask, rest) =
          masked s key (redact_value to_lower s v) covers (redact_value-IsCleanValue s v covers) in
        (mask, rest, redact-IsClean s attrs covers)

  derive-IsCleanContext :
      (h : Handler) (ds : List Derivation)
      → Covers h.sensitive
      → All IsCleanContext h.context
      → Covers (derive to_lower h ds).sensitive × All IsCleanContext (derive to_lower h ds).context
  unfolding derive with_attrs with_group
  derive-IsCleanContext h [] covers c = (covers, c)
  derive-IsCleanContext h (adds attrs ∷ ds) covers c =
      derive-IsCleanContext (with_attrs to_lower h attrs) ds covers
        (redact-IsClean h.sensitive attrs covers, c)
  derive-IsCleanContext h (opens name ∷ ds) covers c =
      derive-IsCleanContext (with_group to_lower h name) ds covers (tt, c)

module _ (to_lower : Bytes → Bytes) (s : List Bytes) where
  -- Attributes without a sensitive key and without a lazy value, at any depth.
  unfoldable mutual
    pub IsPlainValue : Value → Type 0
    IsPlainValue (text t) = Unit
    IsPlainValue (lazy v) = ⊥
    IsPlainValue (group attrs) = IsPlain attrs

    pub IsPlain : Attrs → Type 0
    IsPlain empty = Unit
    IsPlain (attr key v attrs) =
        (is_sensitive to_lower s key ≡ false) × IsPlainValue v × IsPlain attrs

  mutual
    unfolding IsPlain redact

    redact_value_plain : (v : Value) → IsPlainValue v → redact_value to_lower s v ≡ v
    redact_value_plain (text t) h = refl
    redact_value_plain (lazy v) h = absurd h
    redact_value_plain (group attrs) h = ap group (redact_plain attrs h)

    redact_plain : (attrs : Attrs) → IsPlain attrs → redact to_lower s attrs ≡ attrs
    redact_plain empty h = refl
    redact_plain (attr key v attrs) (not_sensitive, plain, rest) =
        rw (not_sensitive, redact_value_plain v plain, redact_plain attrs rest) refl

-- Whatever children are derived from a handler with registered keys, all that they pass on, in the
-- record and in what `WithAttrs` fixed before, has the mask as the value of every attribute whose
-- key is one of the registered keys up to `strings.ToLower` of both, at every depth, and no value
-- that is still to be resolved.
pub handle-IsClean :
    (to_lower : Bytes → Bytes) (keys : List Bytes) (ds : List Derivation) (attrs : Attrs)
    → let h = register_sensitive to_lower new_redacting_handler keys in
      let e = handle to_lower (derive to_lower h ds) attrs in
      IsClean to_lower keys e.attrs × All (IsCleanContext to_lower keys) e.context
unfolding handle new_redacting_handler register_sensitive
handle-IsClean to_lower keys ds attrs =
    let h = register_sensitive to_lower new_redacting_handler keys in
    let (covers, context) =
      derive-IsCleanContext to_lower keys h ds (listed-is_sensitive to_lower keys) tt in
    (redact-IsClean to_lower keys (derive to_lower h ds).sensitive attrs covers, context)

-- A handler passes on a record without sensitive keys and without lazy values as it is.
pub handle_plain :
    (to_lower : Bytes → Bytes) (h : Handler) (attrs : Attrs)
    → IsPlain to_lower h.sensitive attrs
    → handle to_lower h attrs ≡ record { context = h.context; attrs = attrs }
unfolding handle
handle_plain to_lower h attrs plain = rw (redact_plain to_lower h.sensitive attrs plain) refl
