-- ===== src/Proxy/Forward/Progress.antt =====
-- Forwarding through a writer that writes in pieces (internal/proxy/listener.go).
use mathlib.Core.List.{append-nil, append_assoc}
use mhp.Prelude.{
  ℕ, zero, suc, ◌≤◌, ◌<◌, ◌≡◌, refl, sym, ap, ◌∙◌, List, [], ◌∷◌, ◌++◌, Bytes, length, take, drop,
  take-append-drop, All, arith, ◌==◌, bytes_eq, false,
}
use mhp.Errors.{ok}
use mhp.Transport.Conn.{
  Conn, WriteOutcome, full, short, fails, write, write_rest, write_short, read_full, Io,
}
use mhp.Proxy.Forward.{write_rounds, write_full, greeting, no_auth, forward_request}

-- A write that does not fail and writes something.
abbrev pub Progress : WriteOutcome → Type 0
Progress full = Unit
Progress (short k) = 0 < k
Progress (fails k e) = ⊥

drop-length-take : (k : ℕ) (xs : Bytes) → drop (length (take k xs)) xs ≡ drop k xs
drop-length-take zero xs = refl
drop-length-take (suc k) [] = refl
drop-length-take (suc k) (x ∷ xs) = drop-length-take k xs

drop_all : (xs : Bytes) → drop (length xs) xs ≡ []
drop_all [] = refl
drop_all (x ∷ xs) = drop_all xs

length-drop_le : (k : ℕ) (xs : Bytes) → length (drop k xs) ≤ length xs
length-drop_le zero xs = omega arith
length-drop_le (suc k) [] = omega arith
length-drop_le (suc k) (x ∷ xs) = omega (arith, length-drop_le k xs)

-- All is sent, and the writer still makes progress.
record Sends (payload : Bytes) (c : Conn) (io : Io (Unit {0})) : Type 0 where
  later : List WriteOutcome
  progress : All Progress later
  sent : io c ≡ (ok tt, record c { output = c.output ++ payload; writes = later })

nothing_left :
    (n : ℕ) (payload : Bytes) (c : Conn)
    → write_rounds n (drop (length payload) payload) c ≡ (ok tt, c)
unfolding write_rounds
nothing_left n payload c = rw (drop_all payload) (ends n)
  where
    ends : (m : ℕ) → write_rounds m [] c ≡ (ok tt, c)
    ends zero = refl
    ends (suc m) = refl

nonzero : (k : ℕ) → (suc k == 0) ≡ false
nonzero k = ground arith

-- A round that writes something goes on with the rest.
round :
    (n b : ℕ) (payload : Bytes) (c d : Conn) (k : ℕ)
    → write (b ∷ payload) c ≡ (ok (suc k), d)
    → write_rounds (suc n) (b ∷ payload) c ≡ write_rounds n (drop k payload) d
unfolding write_rounds
round n b payload c d k h = rw (h, nonzero k) refl

wrote_full :
    (p : Bytes) (c : Conn) (ws : List WriteOutcome)
    → c.writes ≡ full ∷ ws
    → write p c ≡ (ok (length p), record c { output = c.output ++ p; writes = ws })
unfolding write
wrote_full p c ws h = ground arith

write_rounds-Sends :
    (n : ℕ) (payload : Bytes) (c : Conn) (ws : List WriteOutcome)
    → length payload ≤ n
    → c.writes ≡ ws
    → All Progress ws
    → Sends payload c (write_rounds n payload)
write_rounds-Sends n [] c ws h e p = record {
  later = ws;
  progress = p;
  sent = rw (append-nil c.output, sym e) (nothing_left n [] c);
}
write_rounds-Sends zero (b ∷ payload) c ws h e p = absurd (omega arith)
write_rounds-Sends (suc n) (b ∷ payload) c [] h e p =
    let d = record c { output = c.output ++ (b ∷ payload); writes = [] } in
    record {
      later = [];
      progress = tt;
      sent =
          round n b payload c d (length payload) (write_rest (b ∷ payload) c e)
          ∙ nothing_left n payload d;
    }
write_rounds-Sends (suc n) (b ∷ payload) c (full ∷ ws) h e p =
    let d = record c { output = c.output ++ (b ∷ payload); writes = ws } in
    record {
      later = ws;
      progress = p.1;
      sent =
          round n b payload c d (length payload) (wrote_full (b ∷ payload) c ws e)
          ∙ nothing_left n payload d;
    }
write_rounds-Sends (suc n) (b ∷ payload) c (short zero ∷ ws) h e p = absurd (omega (arith, p.0))
write_rounds-Sends (suc n) (b ∷ payload) c (short (suc k) ∷ ws) h e p =
    let d = record c { output = c.output ++ (b ∷ take k payload); writes = ws } in
    let fewer = length-drop_le k payload in
    let rest = write_rounds-Sends n (drop k payload) d ws (omega (arith, fewer)) refl p.1 in
    record {
      later = rest.later;
      progress = rest.progress;
      sent =
          round n b payload c d (length (take k payload)) (write_short (b ∷ payload) c (suc k) ws e)
          ∙ ap (λ q. write_rounds n q d) (drop-length-take k payload)
          ∙ rest.sent
          ∙ ap (λ o. (ok tt, record c { output = o; writes = rest.later }))
              (append_assoc c.output (b ∷ take k payload) (drop k payload)
                ∙ ap (λ q. c.output ++ (b ∷ q)) (take-append-drop k payload));
    }
write_rounds-Sends (suc n) (b ∷ payload) c (fails k f ∷ ws) h e p = absurd p.0

write_full-Sends :
    (payload : Bytes) (c : Conn) → All Progress c.writes → Sends payload c (write_full payload)
unfolding write_full
write_full-Sends payload c p =
    write_rounds-Sends (length payload) payload c c.writes (omega arith) refl p

read_method :
    (rest : Bytes) (c : Conn)
    → c.input ≡ no_auth ++ rest
    → read_full 2 c ≡ (ok no_auth, record c { input = rest })
unfolding read_full
read_method rest c e = ground arith

-- To an exit that selects no authentication, over a stream that never fails a write and writes at
-- least one byte at a time, the request is handed on: the greeting and then all of the request are
-- sent, and what the exit sends after its selection stays unread.
pub forward_request-Progress :
    (request rest : Bytes) (c : Conn)
    → All Progress c.writes
    → c.input ≡ no_auth ++ rest
    → ((forward_request request c).0 ≡ ok tt)
      × ((forward_request request c).1.output ≡ c.output ++ (greeting ++ request))
      × ((forward_request request c).1.input ≡ rest)
unfolding forward_request bytes_eq
forward_request-Progress request rest c p e =
    let hello = write_full-Sends greeting c p in
    let d = record c { output = c.output ++ greeting; writes = hello.later; input = rest } in
    let body = write_full-Sends request d hello.progress in
    let sent_hello = record c { output = c.output ++ greeting; writes = hello.later } in
    rw (hello.sent, read_method rest sent_hello e, body.sent)
      (refl, append_assoc c.output greeting request, refl)
