-- ===== src/Transport/Mux/Lines.antt =====
-- The lines that yamux logs (internal/transport/yamux.go).
use mhp.Prelude.{
  ℕ, zero, suc, ◌≡◌, refl, ap, inl, inr, Bool, true, false, Bool-cases, ◌==◌, ==_iff, ◌&&◌,
  is_empty, none, List, [], ◌∷◌, ◌++◌, Bytes, length, if◌then◌else◌, arith,
}
use mhp.Transport.Mux.{trim_line_feeds, slog_write}

abbrev pub line_feeds : ℕ → Bytes
line_feeds zero = []
line_feeds (suc n) = 10 ∷ line_feeds n

-- The text ends in no line feed.
abbrev pub ends_open : Bytes → Bool
ends_open [] = true
ends_open (b ∷ []) = if b == 10 then false else true
ends_open (b ∷ c ∷ bs) = ends_open (c ∷ bs)

-- A text, and the line feeds behind it.
pub record Trimmed (p msg : Bytes) : Type 0 where
  pub feeds : ℕ
  pub parts : p ≡ msg ++ line_feeds feeds
  pub ends : ends_open msg ≡ true

kept :
    (b : ℕ) (bs rest : Bytes)
    → Trimmed bs rest
    → (is_empty rest && (b == 10)) ≡ false
    → Trimmed (b ∷ bs) (b ∷ rest)
kept b bs [] t h = record { feeds = t.feeds; parts = ap (◌∷◌ b) t.parts; ends = ground arith }
kept b bs (c ∷ rest) t h = record { feeds = t.feeds; parts = ap (◌∷◌ b) t.parts; ends = t.ends }

dropped :
    (b : ℕ) (bs rest : Bytes)
    → Trimmed bs rest
    → (is_empty rest && (b == 10)) ≡ true
    → Trimmed (b ∷ bs) []
dropped b bs [] t h =
    let eq : b ≡ 10 = (==_iff b 10).0 h in
    record { feeds = suc t.feeds; parts = rw (eq, t.parts) refl; ends = refl }
dropped b bs (c ∷ rest) t h = cc

trim_line_feeds-Trimmed : (p : Bytes) → Trimmed p (trim_line_feeds p)
unfolding trim_line_feeds
trim_line_feeds-Trimmed [] = record { feeds = 0; parts = refl; ends = refl }
trim_line_feeds-Trimmed (b ∷ bs) =
    let t = trim_line_feeds-Trimmed bs in
    elim (Bool-cases (is_empty (trim_line_feeds bs) && (b == 10))) [
      | inl h ↦ rw h (dropped b bs (trim_line_feeds bs) t h)
      | inr h ↦ rw h (kept b bs (trim_line_feeds bs) t h)
    ]

-- A Write to the log of a session takes all bytes and does not fail; it logs the bytes without the
-- line feeds at their end, or nothing, where they are only line feeds.
pub slog_write-Trimmed :
    (p : Bytes) (lines : List Bytes)
    → ((slog_write p lines).0 ≡ (length p, none))
      × Trimmed p (trim_line_feeds p)
      × ((slog_write p lines).1
          ≡ (if is_empty (trim_line_feeds p) then lines else trim_line_feeds p ∷ lines))
unfolding slog_write
slog_write-Trimmed p lines = (refl, trim_line_feeds-Trimmed p, refl)
