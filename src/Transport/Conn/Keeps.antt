-- ===== src/Transport/Conn/Keeps.antt =====
-- What a piece of code on a connection leaves unchanged.
use mhp.Prelude.{
  ℕ, ℤ, Option, ◌≡◌, refl, ◌∙◌, Bytes, List, [], ◌∷◌, Bool-cases, inl, inr, leb, length,
}
use mhp.Errors.{Error, Result, ok, err}
use mhp.Transport.Conn.{
  Conn, Io, ◌>>=◌, proceed, mapped, on_error, read_full, write, written, WriteOutcome, full, short,
  fails,
}

-- The code leaves a part of the connection as it was, whether it succeeds or not.
abbrev pub Keeps {ℓ κ} : {A : Type ℓ} {B : Type κ} → (Conn → B) → Io A → Type κ
Keeps part m = (c : Conn) → part (m c).1 ≡ part c

proceed-part {ℓ κ ι} :
    {A : Type ℓ} {B : Type κ} {C : Type ι} (part : Conn → C) (p : Result A × Conn) (f : A → Io B)
    → ((a : A) → Keeps part (f a))
    → part (proceed p f).1 ≡ part p.1
proceed-part part (ok a, d) f h = h a d
proceed-part part (err e, d) f h = refl

pub >>=-Keeps {ℓ κ ι} :
    {A : Type ℓ} {B : Type κ} {C : Type ι} (part : Conn → C) (m : Io A) (f : A → Io B)
    → Keeps part m
    → ((a : A) → Keeps part (f a))
    → Keeps part (m >>= f)
>>=-Keeps part m f h k c = proceed-part part (m c) f k ∙ h c

mapped-part {ℓ ι} :
    {A : Type ℓ} {C : Type ι} (part : Conn → C) (f : Error → Error) (p : Result A × Conn)
    → part (mapped f p).1 ≡ part p.1
mapped-part part f (ok a, d) = refl
mapped-part part f (err e, d) = refl

pub on_error-Keeps {ℓ ι} :
    {A : Type ℓ} {C : Type ι} (part : Conn → C) (f : Error → Error) (m : Io A)
    → Keeps part m
    → Keeps part (on_error f m)
on_error-Keeps part f m h c = mapped-part part f (m c) ∙ h c

-- Reading touches the input alone.
pub read_full-Keeps {ι} :
    {C : Type ι} (part : Conn → C) (n : ℕ)
    → ((c : Conn) (xs : Bytes) → part (record c { input = xs }) ≡ part c)
    → Keeps part (read_full n)
unfolding read_full
read_full-Keeps part n h c = elim (Bool-cases (leb n (length c.input))) [
  | inl e ↦ rw (e, read_full) (h c _)
  | inr e ↦ rw (e, read_full) (h c [])
]

-- The deadline, and those set before.
abbrev pub limit : Conn → Option ℤ × List (Option ℤ)
limit c = (c.deadline, c.deadlines)

written-deadline :
    (p : Bytes) (c : Conn) (ws : List WriteOutcome) → limit (written p c ws).1 ≡ limit c
written-deadline p c [] = refl
written-deadline p c (full ∷ ws) = refl
written-deadline p c (short k ∷ ws) = refl
written-deadline p c (fails k e ∷ ws) = refl

pub write-deadline : (p : Bytes) → Keeps limit (write p)
unfolding write
write-deadline p c = written-deadline p c c.writes
