-- ===== src/Transport/Records/SessionId.antt =====
-- Session identifiers (internal/transport/records.go).
use mhp.Prelude.{ℕ, ◌*◌, ◌/◌, ◌%◌, ◌≤◌, ◌<◌, ◌≡◌, refl, ◌⊎◌, [], ◌∷◌, Bytes, All, length, arith}
use mhp.Transport.Records.{hex_digit, new_session_id}

-- A byte of the alphabet 0-9a-f.
abbrev pub IsHexDigit : ℕ → Type 0
IsHexDigit c = ((b'0' ≤ c) × (c ≤ b'9')) ⊎ ((b'a' ≤ c) × (c ≤ b'f'))

abbrev pub AreBytes : Bytes → Type 0
AreBytes = All (λ b. b < 256)

hex_digit-IsHexDigit : (n : ℕ) → n < 16 → IsHexDigit (hex_digit n)
unfolding hex_digit
hex_digit-IsHexDigit n h = ground arith

hex_digit_injective : (m n : ℕ) → m < 16 → n < 16 → hex_digit m ≡ hex_digit n → m ≡ n
unfolding hex_digit
hex_digit_injective m n h k e = ground arith

-- Different random bytes give different identifiers.
pub new_session_id_injective :
    (a b : Bytes) → AreBytes a → AreBytes b → new_session_id a ≡ new_session_id b → a ≡ b
unfolding new_session_id
new_session_id_injective [] [] h k e = refl
new_session_id_injective [] (y ∷ b) h k e = cc
new_session_id_injective (x ∷ a) [] h k e = cc
new_session_id_injective (x ∷ a) (y ∷ b) h k e = ground (
  arith,
  hex_digit_injective (x / 16) (y / 16),
  hex_digit_injective (x % 16) (y % 16),
  new_session_id_injective a b h.1 k.1,
)

-- The identifier of n random bytes has 2n characters, all hexadecimal digits.
pub new_session_id_shape :
    (a : Bytes)
    → AreBytes a
    → (length (new_session_id a) ≡ 2 * length a) × All IsHexDigit (new_session_id a)
unfolding new_session_id
new_session_id_shape [] h = (refl, tt)
new_session_id_shape (x ∷ a) h =
    let rest = new_session_id_shape a h.1 in
    (
      omega (arith, rest.0),
      (
        hex_digit-IsHexDigit (x / 16) (omega arith),
        (hex_digit-IsHexDigit (x % 16) (omega arith), rest.1),
      ),
    )
