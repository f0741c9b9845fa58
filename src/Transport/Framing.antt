-- ===== src/Transport/Framing.antt =====
-- internal/transport/framing.go: frames of a 4-byte big-endian length and that many bytes. The codec
-- of `encoding/json` is a parameter of the code that reads and writes records.
pub mod RoundTrip
pub mod Writes
pub mod Keeps
pub mod Tests
use mhp.Prelude.{
  ℕ, ◌+◌, ◌*◌, ◌/◌, ◌%◌, ◌^◌, ◌≡◌, Bool, true, false, not, Option, none, some, List, [], ◌∷◌, ◌++◌,
  Bytes, ltb, ◌==◌, if◌then◌else◌, length,
}
use mhp.Errors.{
  Error, Result, ok, err, sentinel, wrap, join, mark, frame_too_large, short_write,
  malformed_record, encode_failed,
}
use mhp.Transport.Conn.{Conn, Io, ◌>>=◌, ◌>>◌, done, fail, on_error, read_full, write}

abbrev pub frame_header_len : ℕ
frame_header_len = 4

abbrev pub max_frame_bytes : ℕ
max_frame_bytes = 4096

-- `binary.BigEndian.Uint32` of the header.
unfoldable pub be_uint32 : Bytes → ℕ
be_uint32 (a ∷ b ∷ c ∷ d ∷ rest) = a * 2 ^ 24 + b * 2 ^ 16 + c * 2 ^ 8 + d
be_uint32 _ = 0

-- `binary.BigEndian.PutUint32(buf[:], uint32(n))`: the conversion keeps the low 32 bits.
unfoldable pub put_uint32 : ℕ → Bytes
put_uint32 n =
    let v = n % 2 ^ 32 in (v / 2 ^ 24) ∷ (v / 2 ^ 16 % 256) ∷ (v / 2 ^ 8 % 256) ∷ (v % 256) ∷ []

unfoldable pub read_body : Bytes → Io Bytes
read_body hdr =
    if ltb max_frame_bytes (be_uint32 hdr)
    then fail (sentinel frame_too_large)
    else on_error (wrap "read frame body") (read_full (be_uint32 hdr))

unfoldable pub read_frame : Io Bytes
unfolding read_body
read_frame = do
  hdr ← on_error (wrap "read frame header") (read_full frame_header_len)
  read_body hdr

unfoldable pub check_written : Bytes → ℕ → Io (Unit {0})
check_written body n = if not (n == length body) then fail (sentinel short_write) else done tt

unfoldable pub write_body : Bytes → Io (Unit {0})
unfolding check_written
write_body body = do n ← on_error (wrap "write frame body") (write body); check_written body n

unfoldable pub write_frame : Bytes → Io (Unit {0})
unfolding write_body
write_frame body = do
  on_error (wrap "write frame header") (write (put_uint32 (length body)))
  write_body body

-- `json.Marshal` and `json.Unmarshal` at the type of a record.
pub record Codec (A : Type 0) : Type 0 where
  pub marshal : A → Result Bytes
  pub unmarshal : Bytes → Result A

module _ {A : Type 0} (codec : Codec A) where
  abbrev pub decoded : Result A → Io A
  decoded (ok a) = done a
  decoded (err e) = fail (join malformed_record e)

  unfoldable pub read_json : Io A
  read_json = do body ← on_error (wrap "read frame") read_frame; decoded (codec.unmarshal body)

  abbrev pub encoded : Result Bytes → Io (Unit {0})
  encoded (ok body) = write_frame body
  encoded (err e) = fail (join encode_failed e)

  unfoldable pub write_json : A → Io (Unit {0})
  write_json a = encoded (codec.marshal a)
