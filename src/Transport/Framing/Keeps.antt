-- ===== src/Transport/Framing/Keeps.antt =====
-- What reading and writing frames leaves unchanged (internal/transport/framing.go).
use mhp.Prelude.{ℕ, ◌≡◌, refl, Bytes, ltb, ◌==◌, length, Bool-cases, inl, inr}
use mhp.Errors.{Result, ok, err, wrap}
use mhp.Transport.Conn.{Conn, on_error, read_full, write}
use mhp.Transport.Conn.Keeps.{
  Keeps, limit, >>=-Keeps, on_error-Keeps, read_full-Keeps, write-deadline,
}
use mhp.Transport.Framing.{
  max_frame_bytes, be_uint32, put_uint32, Codec, decoded, encoded, read_body, read_frame,
  check_written, write_body, write_frame, read_json, write_json,
}

-- Reading: every part of the connection that does not depend on its input.
module _ {C : Type 0} (part : Conn → C)
    (h : (c : Conn) (xs : Bytes) → part (record c { input = xs }) ≡ part c) where
  read_body-Keeps : (hdr : Bytes) → Keeps part (read_body hdr)
  unfolding read_body
  read_body-Keeps hdr c = elim (Bool-cases (ltb max_frame_bytes (be_uint32 hdr))) [
    | inl e ↦ rw (e, read_body) refl
    | inr e ↦
        rw (e, read_body)
          (on_error-Keeps part (wrap "read frame body") (read_full (be_uint32 hdr))
            (read_full-Keeps part (be_uint32 hdr) h) c)
  ]

  read_frame-Keeps : Keeps part read_frame
  unfolding read_frame
  read_frame-Keeps =
      >>=-Keeps part (on_error (wrap "read frame header") (read_full 4)) read_body
        (on_error-Keeps part (wrap "read frame header") (read_full 4) (read_full-Keeps part 4 h))
        read_body-Keeps

  decoded-Keeps : {A : Type 0} (codec : Codec A) (r : Result A) → Keeps part (decoded codec r)
  decoded-Keeps codec (ok a) c = refl
  decoded-Keeps codec (err e) c = refl

  pub read_json-Keeps : {A : Type 0} (codec : Codec A) → Keeps part (read_json codec)
  unfolding read_json
  read_json-Keeps codec =
      >>=-Keeps part (on_error (wrap "read frame") read_frame)
        (λ b. decoded codec (codec.unmarshal b))
        (on_error-Keeps part (wrap "read frame") read_frame read_frame-Keeps)
        (λ b. decoded-Keeps codec (codec.unmarshal b))

-- Writing: the deadlines.
check_written-deadline : (body : Bytes) (n : ℕ) → Keeps limit (check_written body n)
unfolding check_written
check_written-deadline body n c = elim (Bool-cases (n == length body)) [
  | inl e ↦ rw (e, check_written) refl
  | inr e ↦ rw (e, check_written) refl
]

write_frame-deadline : (body : Bytes) → Keeps limit (write_frame body)
unfolding write_frame
write_frame-deadline body =
    >>=-Keeps limit (on_error (wrap "write frame header") (write (put_uint32 (length body))))
      (λ _. write_body body)
      (on_error-Keeps limit (wrap "write frame header") (write (put_uint32 (length body)))
        (write-deadline (put_uint32 (length body))))
      λ _.
        >>=-Keeps limit (on_error (wrap "write frame body") (write body)) (check_written body)
          (on_error-Keeps limit (wrap "write frame body") (write body) (write-deadline body))
          (check_written-deadline body)

encoded-deadline : {A : Type 0} (codec : Codec A) (r : Result Bytes) → Keeps limit (encoded codec r)
encoded-deadline codec (ok body) c = write_frame-deadline body c
encoded-deadline codec (err e) c = refl

pub write_json-deadline : {A : Type 0} (codec : Codec A) (a : A) → Keeps limit (write_json codec a)
unfolding write_json
write_json-deadline codec a = encoded-deadline codec (codec.marshal a)
