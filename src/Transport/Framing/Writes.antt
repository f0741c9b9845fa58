-- ===== src/Transport/Framing/Writes.antt =====
-- What `writeFrame` sends (internal/transport/framing.go), by what the writer does.
use mhp.Prelude.{
  ℕ, ◌^◌, ◌≤◌, ◌<◌, ◌≡◌, refl, ap, ◌∙◌, List, [], ◌∷◌, ◌++◌, Bytes, length, take, length-take,
  arith, ==_refl, ==_ne,
}
use mathlib.Core.Path.{subst}
use mathlib.Core.List.{append_assoc}
use mhp.Errors.{ok, err, sentinel, short_write, frame_too_large, wrap}
use mhp.Transport.Conn.{
  Conn, WriteOutcome, full, short, fails, write, written, on_error, >>=-ok, on_error-ok, write_full,
  write_rest, write_short,
}
use mhp.Transport.Framing.{
  max_frame_bytes, put_uint32, check_written, write_body, read_frame, write_frame,
}
use mhp.Transport.Framing.RoundTrip.{frame, read_frame-frame, read_frame_too_large}

-- No write of the script is short without an error, as `io.Writer` asks.
abbrev pub KeepsContract : List WriteOutcome → Type 0
KeepsContract [] = Unit {0}
KeepsContract (full ∷ ws) = KeepsContract ws
KeepsContract (short k ∷ ws) = ⊥
KeepsContract (fails k e ∷ ws) = KeepsContract ws

-- Through a writer that takes everything, the whole frame is sent.
pub write_frame_full :
    (body : Bytes) (c : Conn)
    → c.writes ≡ []
    → write_frame body c ≡ (ok tt, record c { output = c.output ++ frame body; writes = [] })
unfolding write_frame
write_frame_full body c h =
    let header = put_uint32 (length body) in
    rw (write_rest header c h) (
      rw
        (
          write_rest body (record c { output = c.output ++ header; writes = [] }) refl,
          ==_refl (length body),
        )
        (ground (arith, append_assoc c.output header body)))

abbrev Sent : Bytes → Conn → Conn → Type 0
Sent p c c' = (c'.output ≡ c.output ++ p) × KeepsContract c'.writes

written_ok :
    (p : Bytes) (c : Conn) (ws : List WriteOutcome) {c' : Conn} {n : ℕ}
    → KeepsContract ws
    → written p c ws ≡ (ok n, c')
    → Sent p c c'
written_ok p c [] k h = subst (Sent p c) (ap (λ q. q.1) h) (refl, tt)
written_ok p c (full ∷ ws) k h = subst (Sent p c) (ap (λ q. q.1) h) (refl, k)
written_ok p c (short m ∷ ws) k h = absurd k
written_ok p c (fails m x ∷ ws) k h = cc (ap (λ q. q.0) h)

write_ok :
    (p : Bytes) (c c' : Conn) (n : ℕ)
    → KeepsContract c.writes
    → write p c ≡ (ok n, c')
    → Sent p c c'
unfolding write
write_ok p c c' n k h = written_ok p c c.writes k h

check_written_state :
    (body : Bytes) (n : ℕ) (c c' : Conn) → check_written body n c ≡ (ok tt, c') → c' ≡ c
unfolding check_written
check_written_state body n c c' h = ground arith

-- Through a writer that keeps the contract of `io.Writer`, success means that the whole frame is
-- sent.
pub write_frame_complete :
    (body : Bytes) (c c' : Conn)
    → KeepsContract c.writes
    → write_frame body c ≡ (ok tt, c')
    → c'.output ≡ c.output ++ frame body
unfolding write_frame
write_frame_complete body c c' k h =
    let (a, d, first, rest) =
      >>=-ok (on_error (wrap "write frame header") (write (put_uint32 (length body))))
        (λ _. write_body body) c h in
    let (n, e, second, last) =
      >>=-ok (on_error (wrap "write frame body") (write body)) (check_written body) d rest in
    let head =
      write_ok (put_uint32 (length body)) c d a k
        (on_error-ok (wrap "write frame header") (write (put_uint32 (length body))) c first) in
    let tail =
      write_ok body d e n head.1 (on_error-ok (wrap "write frame body") (write body) d second) in
    ground (
      arith,
      check_written_state body n e c' last,
      append_assoc c.output (put_uint32 (length body)) body,
    )

-- A body write that stops early without an error is reported as a short write.
pub write_frame_short_body :
    (body : Bytes) (c : Conn) (k : ℕ) (ws : List WriteOutcome)
    → k < length body
    → c.writes ≡ full ∷ short k ∷ ws
    → (write_frame body c).0 ≡ err (sentinel short_write)
unfolding write_frame
write_frame_short_body body c k ws h e =
    let header = put_uint32 (length body) in
    rw (write_full header c (short k ∷ ws) e) (
      rw (
        write_short body (record c { output = c.output ++ header; writes = short k ∷ ws }) k ws
            refl,
        length-take k body (omega arith),
        ==_ne k (length body) h,
      ))

-- A header write that stops early without an error is not noticed: whatever the body, the call
-- succeeds with only `k` bytes of the length prefix before it.
pub write_frame_short_header :
    (body : Bytes) (c : Conn) (k : ℕ)
    → c.writes ≡ short k ∷ []
    → write_frame body c ≡ (
      ok tt,
      record c { output = c.output ++ (take k (put_uint32 (length body)) ++ body); writes = [] },
    )
unfolding write_frame
write_frame_short_header body c k e =
    let sent = take k (put_uint32 (length body)) in
    rw (write_short (put_uint32 (length body)) c k [] e) (
      rw
        (
          write_rest body (record c { output = c.output ++ sent; writes = [] }) refl,
          ==_refl (length body),
        )
        (ground (arith, append_assoc c.output sent body)))

-- What one side sends as a frame of at most 4096 bytes, over a writer that takes everything, the
-- other side reads as that body, and what follows the frame stays unread.
pub read_frame-write_frame :
    (body rest : Bytes) (w r : Conn)
    → length body ≤ max_frame_bytes
    → w.writes ≡ []
    → w.output ≡ []
    → r.input ≡ (write_frame body w).1.output ++ rest
    → ((write_frame body w).0 ≡ ok tt) × (read_frame r ≡ (ok body, record r { input = rest }))
read_frame-write_frame body rest w r h ws out e =
    let sent = write_frame_full body w ws in
    (
      ap (λ q. q.0) sent,
      read_frame-frame body rest r h
          (e ∙ ap (λ q. q ++ rest) (ap (λ q. q.1.output) sent ∙ ap (λ q. q ++ frame body) out)),
    )

-- `writeFrame` does not refuse a body that no reader accepts: of more than 4096 bytes (and fewer
-- than 2^32) the frame is sent in full, and reading it fails with ErrFrameTooLarge.
pub read_frame-write_frame_oversized :
    (body rest : Bytes) (w r : Conn)
    → max_frame_bytes < length body
    → length body < 2 ^ 32
    → w.writes ≡ []
    → w.output ≡ []
    → r.input ≡ (write_frame body w).1.output ++ rest
    → ((write_frame body w).0 ≡ ok tt) × ((read_frame r).0 ≡ err (sentinel frame_too_large))
read_frame-write_frame_oversized body rest w r h k ws out e =
    let sent = write_frame_full body w ws in
    (
      ap (λ q. q.0) sent,
      ap (λ q. q.0)
          (read_frame_too_large body rest r h k
            (e ∙ ap (λ q. q ++ rest) (ap (λ q. q.1.output) sent ∙ ap (λ q. q ++ frame body) out))),
    )
