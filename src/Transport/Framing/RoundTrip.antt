-- ===== src/Transport/Framing/RoundTrip.antt =====
-- What is written as a frame is read as that frame (internal/transport/framing.go).
use mhp.Prelude.{
  ℕ, ◌^◌, ◌≤◌, ◌<◌, ◌≡◌, refl, ap, sym, ◌∙◌, true, false, ◌++◌, Bytes, ltb, length, length-append,
  take-append, drop-append, take-append-drop, length-take, arith, Bool-cases, inl, inr,
}
use mathlib.Core.List.{append_assoc}
use mhp.Errors.{ok, err, sentinel, frame_too_large, wrap}
use mhp.Transport.Conn.{Conn, read_full, on_error, >>=-ok, on_error-ok}
use mhp.Transport.Framing.{max_frame_bytes, be_uint32, put_uint32, read_body, read_frame}

-- The bytes of a frame on the wire.
abbrev pub frame : Bytes → Bytes
frame body = put_uint32 (length body) ++ body

pub be_uint32-put_uint32 : (n : ℕ) → n < 2 ^ 32 → be_uint32 (put_uint32 n) ≡ n
unfolding be_uint32 put_uint32
be_uint32-put_uint32 n h = omega arith

length-put_uint32 : (n : ℕ) → length (put_uint32 n) ≡ 4
unfolding put_uint32
length-put_uint32 n = refl

-- Reading a prefix of known length.
read_full-append :
    (n : ℕ) (xs ys : Bytes) (c : Conn)
    → length xs ≡ n
    → c.input ≡ xs ++ ys
    → read_full n c ≡ (ok xs, record c { input = ys })
unfolding read_full
read_full-append n xs ys c h e =
    ground (arith, take-append xs ys, drop-append xs ys, length-append xs ys)

read_body-append :
    (hdr body rest : Bytes) (c : Conn)
    → be_uint32 hdr ≡ length body
    → length body ≤ max_frame_bytes
    → c.input ≡ body ++ rest
    → read_body hdr c ≡ (ok body, record c { input = rest })
unfolding read_body
read_body-append hdr body rest c k l e =
    let small : ltb max_frame_bytes (length body) ≡ false = ground arith in
    rw (k, small, read_full-append (length body) body rest c refl e)

read_body_too_large :
    (hdr : Bytes) (c : Conn)
    → max_frame_bytes < be_uint32 hdr
    → read_body hdr c ≡ (err (sentinel frame_too_large), c)
unfolding read_body
read_body_too_large hdr c h =
    let big : ltb max_frame_bytes (be_uint32 hdr) ≡ true = ground arith in rw big

-- `read_frame` reads its header, and goes on with it.
read_frame_header :
    (hdr rest : Bytes) (c : Conn)
    → length hdr ≡ 4
    → c.input ≡ hdr ++ rest
    → read_frame c ≡ read_body hdr (record c { input = rest })
unfolding read_frame
read_frame_header hdr rest c h e = rw (read_full-append 4 hdr rest c h e)

-- The frame of a body of at most 4096 bytes is read back as that body, and exactly the frame is
-- taken off the input.
pub read_frame-frame :
    (body rest : Bytes) (c : Conn)
    → length body ≤ max_frame_bytes
    → c.input ≡ frame body ++ rest
    → read_frame c ≡ (ok body, record c { input = rest })
read_frame-frame body rest c h e =
    read_frame_header (put_uint32 (length body)) (body ++ rest) c (length-put_uint32 (length body))
      (e ∙ append_assoc (put_uint32 (length body)) body rest)
    ∙ read_body-append (put_uint32 (length body)) body rest (record c { input = body ++ rest })
        (be_uint32-put_uint32 (length body) (omega arith)) h refl

-- A frame that declares more than 4096 bytes is refused before its body is read.
pub read_frame_too_large :
    (body rest : Bytes) (c : Conn)
    → max_frame_bytes < length body
    → length body < 2 ^ 32
    → c.input ≡ frame body ++ rest
    → read_frame c ≡ (err (sentinel frame_too_large), record c { input = body ++ rest })
read_frame_too_large body rest c h k e =
    read_frame_header (put_uint32 (length body)) (body ++ rest) c (length-put_uint32 (length body))
      (e ∙ append_assoc (put_uint32 (length body)) body rest)
    ∙ read_body_too_large (put_uint32 (length body)) (record c { input = body ++ rest })
        (omega (arith, be_uint32-put_uint32 (length body) k))

read_full_ok :
    (n : ℕ) (c c' : Conn) (xs : Bytes)
    → read_full n c ≡ (ok xs, c')
    → (length xs ≡ n) × (c.input ≡ xs ++ c'.input)
unfolding read_full
read_full_ok n c c' xs h = ground (arith, length-take n c.input, take-append-drop n c.input)

read_body_ok :
    (hdr : Bytes) (c c' : Conn) (body : Bytes)
    → read_body hdr c ≡ (ok body, c')
    → (length body ≡ be_uint32 hdr) × (length body ≤ max_frame_bytes) × (c.input ≡ body ++ c'.input)
unfolding read_body
read_body_ok hdr c c' body h = elim (Bool-cases (ltb max_frame_bytes (be_uint32 hdr))) [
  | inl big ↦ cc (ap (λ p. p.0) (rw (big, read_body) at h))
  | inr small ↦
      let got = read_full_ok (be_uint32 hdr) c c' body (
        on_error-ok (wrap "read frame body") (read_full (be_uint32 hdr)) c
          (rw (small, read_body) at h)) in
      (got.0, ground arith, got.1)
]

-- A frame that is read has at most 4096 bytes; the input began with a header of its length and
-- those bytes, and exactly they are taken off.
pub read_frame_ok :
    (c c' : Conn) (body : Bytes)
    → read_frame c ≡ (ok body, c')
    → (hdr : Bytes) × (c.input ≡ hdr ++ (body ++ c'.input))
      × (length hdr ≡ 4)
      × (be_uint32 hdr ≡ length body)
      × (length body ≤ max_frame_bytes)
unfolding read_frame
read_frame_ok c c' body h =
    let (hdr, d, first, rest) =
      >>=-ok (on_error (wrap "read frame header") (read_full 4)) read_body c h in
    let head =
      read_full_ok 4 c d hdr (on_error-ok (wrap "read frame header") (read_full 4) c first) in
    let tail = read_body_ok hdr d c' body rest in
    (hdr, head.1 ∙ ap (◌++◌ hdr) tail.2, head.0, sym tail.0, tail.1)
