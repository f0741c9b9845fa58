-- ===== src/Transport/Records/Tests.antt =====
-- The records at concrete inputs.
use mhp.Prelude.{◌*◌, ◌≡◌, refl, [], ◌∷◌, Bytes, All, length, codes, arith}
use mhp.Transport.Records.{new_session_id, hex_digit}
use mhp.Transport.Records.SessionId.{IsHexDigit, new_session_id_injective, new_session_id_shape}

abbrev random : Bytes
random = 0 ∷ 171 ∷ 255 ∷ []

random_id : new_session_id random ≡ codes "00abff"
unfolding new_session_id hex_digit
random_id = refl

new_session_id_injective_at_input : random ≡ 0 ∷ 171 ∷ 255 ∷ []
new_session_id_injective_at_input =
    new_session_id_injective random (0 ∷ 171 ∷ 255 ∷ [])
      (omega arith, (omega arith, (omega arith, tt)))
      (omega arith, (omega arith, (omega arith, tt))) refl

new_session_id_shape_at_input :
    (length (new_session_id random) ≡ 2 * length random) × All IsHexDigit (new_session_id random)
new_session_id_shape_at_input =
    new_session_id_shape random (omega arith, (omega arith, (omega arith, tt)))
