-- ===== src/Stream/Copy/Delivers.antt =====
-- What `io.Copy` hands to the destination (internal/stream/duplex.go, internal/relay/bridge.go).
use mathlib.Core.Path.{subst}
use mathlib.Core.List.{append-nil, append_assoc, flatten}
use mhp.Prelude.{
  ℕ, ◌+◌, ◌^◌, ◌<◌, ◌≡◌, refl, sym, ap, ◌∙◌, inl, inr, Bool-cases, ◌==◌, ==_iff, Option, none, some,
  List, [], ◌∷◌, ◌++◌, Bytes, length, take, drop, take-append-drop, length-append, pos, add64,
  add64_pos, arith,
}
use mhp.Errors.{Error, sentinel, io_short_write}
use mhp.Transport.Conn.{WriteOutcome, full, short, fails}
use mhp.Stream.Copy.{
  Sink, sink_written, sink_write, CounterConn, counted, counter_write, written_turn, copy,
}

-- Of `p`, a part was taken, behind what was taken before, and counted.
pub record Taken (p before : Bytes) (nw : ℕ) (s : Sink) : Type 0 where
  pub done : Bytes
  pub left : Bytes
  pub parts : done ++ left ≡ p
  pub output : s.output ≡ before ++ done
  pub count : nw ≡ length done

sink_written-Taken :
    (p out : Bytes) (ws : List WriteOutcome)
    → Taken p out (sink_written p out ws).0.0 (sink_written p out ws).1
sink_written-Taken p out [] = record {
  done = p;
  left = [];
  parts = append-nil p;
  output = refl;
  count = refl;
}
sink_written-Taken p out (full ∷ ws) = record {
  done = p;
  left = [];
  parts = append-nil p;
  output = refl;
  count = refl;
}
sink_written-Taken p out (short k ∷ ws) = record {
  done = take k p;
  left = drop k p;
  parts = take-append-drop k p;
  output = refl;
  count = refl;
}
sink_written-Taken p out (fails k e ∷ ws) = record {
  done = take k p;
  left = drop k p;
  parts = take-append-drop k p;
  output = refl;
  count = refl;
}

-- Without an error, nothing is left, and the source ended at its end.
abbrev pub Complete : Option Error → Bytes → Option Error → Type 0
Complete none left end_error = (left ≡ []) × (end_error ≡ none)
Complete (some e) left end_error = Unit

-- Of the payload, a part was delivered, behind what was delivered before, and counted, on a counter
-- that stood at `n`.
pub record Delivered (payload before : Bytes) (n : ℕ) (end_error : Option Error)
    (r : Option Error × CounterConn) : Type 0 where
  pub done : Bytes
  pub left : Bytes
  pub parts : done ++ left ≡ payload
  pub output : r.1.conn.output ≡ before ++ done
  pub count : r.1.n ≡ pos (n + length done)
  pub all : Complete r.0 left end_error

no_left : (left : Bytes) → length left ≡ 0 → left ≡ []
no_left [] h = refl
no_left (b ∷ bs) h = absurd (omega arith)

-- What is delivered behind a whole chunk.
Delivered-after :
    (p payload before : Bytes) (n : ℕ) (end_error : Option Error) (r : Option Error × CounterConn)
    → Delivered payload (before ++ p) (n + length p) end_error r
    → Delivered (p ++ payload) before n end_error r
Delivered-after p payload before n end_error r d = record {
  done = p ++ d.done;
  left = d.left;
  parts = append_assoc p d.done d.left ∙ ap (λ q. p ++ q) d.parts;
  output = d.output ∙ append_assoc before p d.done;
  count = d.count ∙ ap pos (omega (arith, length-append p d.done));
  all = d.all;
}

-- What is delivered where the copy stops with an error.
Delivered-stopped :
    (p payload before : Bytes) (n nw : ℕ) (end_error : Option Error) (e : Error) (c : CounterConn)
    → Taken p before nw c.conn
    → c.n ≡ pos (n + nw)
    → Delivered (p ++ payload) before n end_error (some e, c)
Delivered-stopped p payload before n nw end_error e c t m = record {
  done = t.done;
  left = t.left ++ payload;
  parts = sym (append_assoc t.done t.left payload) ∙ ap (λ q. q ++ payload) t.parts;
  output = t.output;
  count = rw (m, t.count) refl;
  all = tt;
}

module _ (p payload before : Bytes) (n : ℕ) (end_error : Option Error)
    (rest : CounterConn → Option Error × CounterConn) where
  Delivered-whole :
      (nw : ℕ) (c : CounterConn)
      → Taken p before nw c.conn
      → c.n ≡ pos (n + nw)
      → nw ≡ length p
      → ((d : CounterConn)
          → d.n ≡ pos (n + length p)
          → Delivered payload d.conn.output (n + length p) end_error (rest d))
      → Delivered (p ++ payload) before n end_error (rest c)
  Delivered-whole nw c t m h ih = Delivered-after p payload before n end_error (rest c) (
      subst (λ out. Delivered payload out (n + length p) end_error (rest c)) (whole)
        (ih c (m ∙ ap (λ k. pos (n + k)) h)))
    where
      none_left : t.left ≡ []
      none_left =
          no_left t.left (omega (arith, t.count, h, length-append t.done t.left, ap length t.parts))

      done : t.done ≡ p
      done = sym (append-nil t.done) ∙ ap (λ q. t.done ++ q) (sym none_left) ∙ t.parts

      whole : c.conn.output ≡ before ++ p
      whole = t.output ∙ ap (λ q. before ++ q) done

  written_turn-Delivered :
      (nw : ℕ) (e : Option Error) (c : CounterConn)
      → Taken p before nw c.conn
      → c.n ≡ pos (n + nw)
      → ((d : CounterConn)
          → d.n ≡ pos (n + length p)
          → Delivered payload d.conn.output (n + length p) end_error (rest d))
      → Delivered (p ++ payload) before n end_error (written_turn (length p) ((nw, e), c) rest)
  written_turn-Delivered nw (some e) c t m ih =
      Delivered-stopped p payload before n nw end_error e c t m
  written_turn-Delivered nw none c t m ih = elim (Bool-cases (nw == length p)) [
    | inl h ↦ rw h (Delivered-whole nw c t m ((==_iff nw (length p)).0 h) ih)
    | inr h ↦
        rw h (Delivered-stopped p payload before n nw end_error (sentinel io_short_write) c t m)
  ]

  counted-Delivered :
      (r : (ℕ × Option Error) × Sink)
      → Taken p before r.0.0 r.1
      → n + length p < 2 ^ 63
      → ((d : CounterConn)
          → d.n ≡ pos (n + length p)
          → Delivered payload d.conn.output (n + length p) end_error (rest d))
      → Delivered
          (p ++ payload)
          before
          n
          end_error
          (written_turn (length p) (counted (pos n) r) rest)
  counted-Delivered ((nw, e), s) t bound ih =
      written_turn-Delivered nw e (record { conn = s; n = add64 (pos n) (pos nw) }) t
        (add64_pos n nw
          (omega (arith, bound, t.count, length-append t.done t.left, ap length t.parts)))
        ih

-- `io.Copy` through a counter that stands at `n` and does not wrap around on the payload, whatever
-- each Write takes and however each ends: the destination is extended by a prefix of the payload, the
-- counter grows by its length, and without an error the prefix is all and the source ended at EOF.
pub copy-Delivered :
    (chunks : List Bytes) (end_error : Option Error) (c : CounterConn) (n : ℕ)
    → c.n ≡ pos n
    → n + length (flatten chunks) < 2 ^ 63
    → Delivered (flatten chunks) c.conn.output n end_error (copy chunks end_error c)
unfolding copy flatten counter_write sink_write
copy-Delivered [] none c n h bound = record {
  done = [];
  left = [];
  parts = refl;
  output = sym (append-nil c.conn.output);
  count = h ∙ ap pos (omega arith);
  all = (refl, refl);
}
copy-Delivered [] (some e) c n h bound = record {
  done = [];
  left = [];
  parts = refl;
  output = sym (append-nil c.conn.output);
  count = h ∙ ap pos (omega arith);
  all = tt;
}
copy-Delivered ([] ∷ chunks) end_error c n h bound = copy-Delivered chunks end_error c n h bound
copy-Delivered ((b ∷ bs) ∷ chunks) end_error c n h bound = rw h (
    counted-Delivered (b ∷ bs) (flatten chunks) c.conn.output n end_error
      (λ d. copy chunks end_error d) (sink_written (b ∷ bs) c.conn.output c.conn.writes)
      (sink_written-Taken (b ∷ bs) c.conn.output c.conn.writes)
      (omega (arith, bound, length-append (b ∷ bs) (flatten chunks)))
      (λ d m.
        copy-Delivered chunks end_error d (n + length (b ∷ bs)) m
          (omega (arith, bound, length-append (b ∷ bs) (flatten chunks)))))
