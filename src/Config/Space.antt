-- ===== src/Config/Space.antt =====
-- `bytes.TrimSpace`, which internal/config/config.go applies to token files.
use mhp.Prelude.{
  ℕ, zero, suc, ◌≡◌, refl, Bool, ◌&&◌, ◌||◌, leb, ◌==◌, Option, none, some, [], ◌∷◌, Bytes, codes,
  if◌then◌else◌,
}
use mathlib.Core.List.{reverse}

-- The space characters of ASCII, and those of two bytes, of three bytes.
abbrev ascii_space : ℕ → Bool
ascii_space c = (leb 9 c && leb c 13) || (c == 32)

abbrev space_two : ℕ → ℕ → Bool
space_two a b = (a == 0xC2) && ((b == 0x85) || (b == 0xA0))

abbrev space_three : ℕ → ℕ → ℕ → Bool
space_three a b c =
    ((a == 0xE1) && (b == 0x9A) && (c == 0x80))
    || ((a == 0xE2)
        && (b == 0x80)
        && ((leb 0x80 c && leb c 0x8A) || (c == 0xA8) || (c == 0xA9) || (c == 0xAF)))
    || ((a == 0xE2) && (b == 0x81) && (c == 0x9F))
    || ((a == 0xE3) && (b == 0x80) && (c == 0x80))

-- How many bytes follow the first one of a space character here; `none` if none stands here.
unfoldable space_at : ℕ → Bytes → Option ℕ
space_at a [] = if ascii_space a then some 0 else none
space_at a (b ∷ []) = if ascii_space a then some 0 else if space_two a b then some 1 else none
space_at a (b ∷ c ∷ bs) =
    if ascii_space a
    then some 0
    else if space_two a b
    then some 1
    else if space_three a b c
    then some 2
    else none

-- The same, read from the end.
unfoldable space_back : ℕ → Bytes → Option ℕ
space_back a [] = if ascii_space a then some 0 else none
space_back a (b ∷ []) = if ascii_space a then some 0 else if space_two b a then some 1 else none
space_back a (b ∷ c ∷ bs) =
    if ascii_space a
    then some 0
    else if space_two b a
    then some 1
    else if space_three c b a
    then some 2
    else none

-- Skips `skip` bytes, and then every character that stands there.
unfoldable strip : (ℕ → Bytes → Option ℕ) → ℕ → Bytes → Bytes
strip at skip [] = []
strip at (suc skip) (b ∷ bs) = strip at skip bs
strip at zero (b ∷ bs) = elim (at b bs) [ none ↦ b ∷ bs | some k ↦ strip at k bs ]

unfoldable pub trim_space : Bytes → Bytes
unfolding strip space_at space_back
trim_space bs = reverse (strip space_back 0 (reverse (strip space_at 0 bs)))

trim_line : trim_space (codes "  \ttoken\r\n") ≡ codes "token"
unfolding trim_space
trim_line = refl

trim_unicode : trim_space (0xC2 ∷ 0xA0 ∷ 65 ∷ 0xE3 ∷ 0x80 ∷ 0x80 ∷ []) ≡ 65 ∷ []
unfolding trim_space
trim_unicode = refl
