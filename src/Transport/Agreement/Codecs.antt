-- ===== src/Transport/Agreement/Codecs.antt =====
-- A codec and the record that it carries across the wire.
use mhp.Prelude.{◌≡◌, ◌∙◌, sym, Bytes, ◌≤◌, length, [], ◌++◌}
use mathlib.Core.List.{append-nil}
use mhp.Errors.{ok}
use mhp.Transport.Conn.{Conn}
use mhp.Transport.Framing.{max_frame_bytes, Codec, read_json, write_json}
use mhp.Transport.Framing.RoundTrip.{frame, read_frame-frame}
use mhp.Transport.Framing.Writes.{write_frame_full}

-- `encoding/json` writes the record as these bytes, which fit a frame, and reads it back from them.
pub record Carries {A : Type 0} (codec : Codec A) (a : A) : Type 0 where
  pub bytes : Bytes
  pub marshals : codec.marshal a ≡ ok bytes
  pub unmarshals : codec.unmarshal bytes ≡ ok a
  pub fits : length bytes ≤ max_frame_bytes

module _ {A : Type 0} (codec : Codec A) (a : A) (k : Carries codec a) where
  pub write_json-frame :
      (c : Conn)
      → c.writes ≡ []
      → write_json codec a c ≡ (ok tt, record c { output = c.output ++ frame k.bytes; writes = [] })
  unfolding write_json
  write_json-frame c h = rw (k.marshals, write_frame_full k.bytes c h)

  pub read_json-frame :
      (c : Conn) → c.input ≡ frame k.bytes → read_json codec c ≡ (ok a, record c { input = [] })
  unfolding read_json
  read_json-frame c h =
      rw (read_frame-frame k.bytes [] c k.fits (h ∙ sym (append-nil (frame k.bytes))), k.unmarshals)
