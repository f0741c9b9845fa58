-- ===== src/Tunnel/Reaches.antt =====
-- Prefixes of what was sent, over one hop after another (internal/stream/duplex.go).
use mathlib.Core.List.{append-nil, append_assoc}
use mhp.Prelude.{
  ◌≡◌, refl, sym, ap, ◌∙◌, Option, none, some, [], ◌++◌, Bytes, length, drop, drop-append,
}
use mhp.Errors.{Error}
use mhp.Stream.Copy.Delivers.{Complete}
use mhp.Stream.Copy.Pairs.Clean.{Fine}

-- A reliable stream: what arrives is a prefix of what was written, in order, and where EOF follows it
-- is all of it.
pub record Arrives (written : Bytes) (arrived : Bytes) (end_error : Option Error) : Type 0 where
  pub lost : Bytes
  pub parts : arrived ++ lost ≡ written
  pub all : Fine (lost ≡ []) end_error

-- A prefix of `sent` that may be followed by more, and is all of it unless something failed.
pub record Reaches (sent got : Bytes) (failed : Option Error) : Type 0 where
  pub missing : Bytes
  pub parts : got ++ missing ≡ sent
  pub all : Fine (missing ≡ []) failed

-- The first of two failures.
abbrev pub first : Option Error → Option Error → Option Error
first none e = e
first (some e) f = some e

pub Fine-append :
    (xs ys : Bytes) (e f : Option Error)
    → Fine (xs ≡ []) f
    → Fine (ys ≡ []) e
    → Fine (xs ++ ys ≡ []) (first e f)
Fine-append xs ys none none h k = rw (h, k) refl
Fine-append xs ys none (some f) h k = tt
Fine-append xs ys (some e) f h k = tt

-- One hop after another.
pub Reaches-trans :
    (a b c : Bytes) (e f : Option Error) → Reaches b c f → Reaches a b e → Reaches a c (first e f)
Reaches-trans a b c e f near far = record {
  missing = near.missing ++ far.missing;
  parts =
      sym (append_assoc c near.missing far.missing)
      ∙ ap (λ q. q ++ far.missing) near.parts
      ∙ far.parts;
  all = Fine-append near.missing far.missing e f near.all far.all;
}

pub Fine-Complete :
    (lost left : Bytes) (end_error failed : Option Error)
    → Fine (lost ≡ []) end_error
    → Complete failed left end_error
    → Fine (left ++ lost ≡ []) failed
Fine-Complete lost left none none h k = rw (k.0, h) refl
Fine-Complete lost left (some e) none h k = cc
Fine-Complete lost left end_error (some f) h k = tt

-- What a copy passes on of a stream.
pub Reaches-Arrives :
    (written arrived done left : Bytes) (end_error failed : Option Error)
    → Arrives written arrived end_error
    → done ++ left ≡ arrived
    → Complete failed left end_error
    → Reaches written done failed
Reaches-Arrives written arrived done left end_error failed a h k = record {
  missing = left ++ a.lost;
  parts = sym (append_assoc done left a.lost) ∙ ap (λ q. q ++ a.lost) h ∙ a.parts;
  all = Fine-Complete a.lost left end_error failed a.all k;
}

pub cancel_head : (head xs ys : Bytes) → head ++ xs ≡ head ++ ys → xs ≡ ys
cancel_head head xs ys h =
    sym (drop-append head xs) ∙ ap (λ q. drop (length head) q) h ∙ drop-append head ys

pub Reaches-cancel :
    (head sent got : Bytes) (failed : Option Error)
    → Reaches (head ++ sent) (head ++ got) failed
    → Reaches sent got failed
Reaches-cancel head sent got failed r = record {
  missing = r.missing;
  parts = cancel_head head _ _ (sym (append_assoc head got r.missing) ∙ r.parts);
  all = r.all;
}

pub Fine-always : (P : Type 0) (e : Option Error) → P → Fine P e
Fine-always P none h = h
Fine-always P (some e) h = tt

pub Arrives-whole : (sent : Bytes) (end_error : Option Error) → Arrives sent sent end_error
Arrives-whole sent end_error = record {
  lost = [];
  parts = append-nil sent;
  all = Fine-always ([] ≡ []) end_error refl;
}
