-- ===== src/Transport/Framing/Tests.antt =====
-- Frames on concrete connections, and the theorems at concrete inputs.
use mhp.Prelude.{
  ℕ, zero, suc, ap, ◌≤◌, ◌≡◌, refl, false, none, List, [], ◌∷◌, ◌++◌, Bytes, length, take, arith,
}
use mhp.Errors.{ok, err, sentinel, eof, unexpected_eof, wrap, short_write, frame_too_large}
use mhp.Transport.Conn.{Conn, WriteOutcome, full, short, read_full, write}
use mhp.Transport.Framing.{max_frame_bytes, be_uint32, put_uint32, read_frame, write_frame}
use mhp.Transport.Framing.RoundTrip.{frame, read_frame_ok}
use mhp.Transport.Framing.Writes.{
  write_frame_complete, write_frame_short_body, write_frame_short_header, read_frame-write_frame,
  read_frame-write_frame_oversized,
}

abbrev conn : Bytes → List WriteOutcome → Conn
conn input writes = record {
  input = input;
  input_end = sentinel eof;
  writes = writes;
  output = [];
  deadline = none;
  deadlines = [];
  closed = false;
}

abbrev hi : Bytes
hi = b'h' ∷ b'i' ∷ []

hi_sent : (write_frame hi (conn [] [])).1.output ≡ 0 ∷ 0 ∷ 0 ∷ 2 ∷ b'h' ∷ b'i' ∷ []
unfolding write_frame write put_uint32
hi_sent = refl

-- A frame that ends early.
hi_cut :
    (read_frame (conn (0 ∷ 0 ∷ 0 ∷ 2 ∷ b'h' ∷ []) [])).0
    ≡ err (wrap "read frame body" (sentinel unexpected_eof))
unfolding read_frame read_full be_uint32
hi_cut = refl

read_frame-write_frame_example :
    ((write_frame hi (conn [] [])).0 ≡ ok tt)
    × (read_frame (conn (0 ∷ 0 ∷ 0 ∷ 2 ∷ b'h' ∷ b'i' ∷ 7 ∷ []) []) ≡ (ok hi, conn (7 ∷ []) []))
unfolding write_frame write put_uint32
read_frame-write_frame_example =
    read_frame-write_frame hi (7 ∷ []) (conn [] []) (conn (0 ∷ 0 ∷ 0 ∷ 2 ∷ b'h' ∷ b'i' ∷ 7 ∷ []) [])
      (omega arith) refl refl refl

-- `n` bytes.
zeros : ℕ → Bytes
zeros zero = []
zeros (suc n) = 0 ∷ zeros n

length-zeros : (n : ℕ) → length (zeros n) ≡ n
unfolding zeros
length-zeros zero = refl
length-zeros (suc n) = ap suc (length-zeros n)

read_frame-write_frame_oversized_example :
    let w = write_frame (zeros 4097) (conn [] []) in
    (w.0 ≡ ok tt) × ((read_frame (conn (w.1.output ++ []) [])).0 ≡ err (sentinel frame_too_large))
read_frame-write_frame_oversized_example =
    read_frame-write_frame_oversized (zeros 4097) [] (conn [] [])
      (conn ((write_frame (zeros 4097) (conn [] [])).1.output ++ []) [])
      (omega (arith, length-zeros 4097)) (omega (arith, length-zeros 4097)) refl refl refl

read_frame_ok_at_input :
    (hdr : Bytes) × (0 ∷ 0 ∷ 0 ∷ 2 ∷ b'h' ∷ b'i' ∷ 7 ∷ [] ≡ hdr ++ (hi ++ (7 ∷ [])))
    × (length hdr ≡ 4)
    × (be_uint32 hdr ≡ length hi)
    × (length hi ≤ max_frame_bytes)
unfolding read_frame read_full be_uint32
read_frame_ok_at_input =
    read_frame_ok (conn (0 ∷ 0 ∷ 0 ∷ 2 ∷ b'h' ∷ b'i' ∷ 7 ∷ []) []) (conn (7 ∷ []) []) hi refl

write_frame_complete_at_input :
    (write_frame hi (conn [] (full ∷ full ∷ []))).1.output ≡ [] ++ frame hi
unfolding write_frame write
write_frame_complete_at_input =
    write_frame_complete hi (conn [] (full ∷ full ∷ []))
      (write_frame hi (conn [] (full ∷ full ∷ []))).1 tt refl

write_frame_short_body_at_input :
    (write_frame hi (conn [] (full ∷ short 1 ∷ []))).0 ≡ err (sentinel short_write)
write_frame_short_body_at_input =
    write_frame_short_body hi (conn [] (full ∷ short 1 ∷ [])) 1 [] (omega arith) refl

write_frame_short_header_at_input :
    write_frame hi (conn [] (short 2 ∷ []))
    ≡ (ok tt, record (conn [] []) { output = [] ++ (take 2 (put_uint32 2) ++ hi) })
write_frame_short_header_at_input = write_frame_short_header hi (conn [] (short 2 ∷ [])) 2 refl
