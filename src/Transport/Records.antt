-- ===== src/Transport/Records.antt =====
-- internal/transport/records.go: the hello of a client and the verdict of the relay.
pub mod SessionId
pub mod Tests
use mhp.Prelude.{ℕ, ◌+◌, ◌-◌, ◌/◌, ◌%◌, Bool, not, List, [], ◌∷◌, Bytes, ltb, ◌==◌, if◌then◌else◌}
use mhp.Errors.{Result, ok, err, sentinel, protocol_version, unexpected_role, unexpected_status}
use mhp.Config.{Mode, mode_relay, mode_exit, mode_proxy}

abbrev pub hello_version : ℕ
hello_version = 1

pub record Hello : Type 0 where
  pub version : ℕ  -- uint16
  pub role : Mode
  pub token : Bytes

-- `type Status string`. `unknown` stands for every string that is neither constant.
pub data Status : Type 0 where
  status_ok status_error : Status
  unknown : Bytes → Status

-- An `omitempty` field that is absent is the empty string.
pub record Response : Type 0 where
  pub version : ℕ  -- uint16
  pub status : Status
  pub session_id : Bytes
  pub error_code : Bytes

abbrev check_role : Mode → Result (Unit {0})
check_role mode_exit = ok tt
check_role mode_proxy = ok tt
check_role _ = err (sentinel unexpected_role)

unfoldable pub validate_hello : Hello → Result (Unit {0})
validate_hello hello =
    if not (hello.version == hello_version)
    then err (sentinel protocol_version)
    else check_role hello.role

abbrev check_status : Status → Result (Unit {0})
check_status status_ok = ok tt
check_status status_error = ok tt
check_status (unknown s) = err (sentinel unexpected_status)

unfoldable pub validate_response : Response → Result (Unit {0})
validate_response resp =
    if not (resp.version == hello_version)
    then err (sentinel protocol_version)
    else check_status resp.status

-- `hex.EncodeToString`.
unfoldable pub hex_digit : ℕ → ℕ
hex_digit n = if ltb n 10 then b'0' + n else b'a' + (n - 10)

unfoldable pub hex_encode : Bytes → Bytes
hex_encode [] = []
hex_encode (b ∷ bs) = hex_digit (b / 16) ∷ hex_digit (b % 16) ∷ hex_encode bs

-- The identifier made of the 16 bytes that `rand.Read` delivers; its failure is a panic.
unfoldable pub new_session_id : Bytes → Bytes
unfolding hex_encode
new_session_id random = hex_encode random
