-- ===== src/Transport/Conn.antt =====
-- A connection as internal/transport uses it (`io.Reader`, `io.Writer`, `net.Conn`): the bytes that
-- the peer sends, and the script of what each Write does. Code that reads and writes is a function
-- of this state; the state is kept when it fails.
pub mod Keeps
use mhp.Prelude.{
  some, none, true, ℤ, ◌≡◌, refl, ap, arith, ℕ, Bool, Option, List, [], ◌∷◌, ◌++◌, Bytes, leb,
  if◌then◌else◌, length, take, drop,
}
use mhp.Errors.{eof, unexpected_eof, Error, sentinel, Result, ok, err}

-- What one `Write(p)` does. `io.Writer` asks for an error wherever less than `p` is written;
-- `short` is the writer that breaks this rule.
pub data WriteOutcome : Type 0 where
  full : WriteOutcome
  short : ℕ → WriteOutcome
  fails : ℕ → Error → WriteOutcome

pub record Conn : Type 0 where
  -- what is still to be read, and the error that follows it (`io.EOF` when the peer closed)
  pub input : Bytes
  pub input_end : Error
  -- what the next writes do; every later one is `full`
  pub writes : List WriteOutcome
  -- what was sent
  pub output : Bytes
  -- an armed deadline, in nanoseconds after the moment it was set
  pub deadline : Option ℤ
  -- every deadline that was set, newest first; `none` is one that was cleared
  pub deadlines : List (Option ℤ)
  pub closed : Bool

-- A method of the connection.
abbrev pub Io {ℓ} : Type ℓ → Type ℓ
Io A = Conn → Result A × Conn

abbrev pub proceed {ℓ κ} :
    {A : Type ℓ} {B : Type κ} → Result A × Conn → (A → Io B) → Result B × Conn
proceed (ok a, c) f = f a c
proceed (err e, c) f = (err e, c)

infixl 5 ◌>>=◌ ◌>>◌
abbrev pub ◌>>=◌ {ℓ κ} : {A : Type ℓ} {B : Type κ} → Io A → (A → Io B) → Io B
◌>>=◌ m f c = proceed (m c) f

abbrev pub ◌>>◌ {ℓ κ} : {A : Type ℓ} {B : Type κ} → Io A → Io B → Io B
m >> k = m >>= λ _. k

abbrev pub done {ℓ} : {A : Type ℓ} → A → Io A
done a c = (ok a, c)

abbrev pub fail {ℓ} : {A : Type ℓ} → Error → Io A
fail e c = (err e, c)

abbrev pub mapped {ℓ} : {A : Type ℓ} → (Error → Error) → Result A × Conn → Result A × Conn
mapped f (ok a, c) = (ok a, c)
mapped f (err e, c) = (err (f e), c)

-- `if err != nil { return ..., fmt.Errorf(...) }`.
abbrev pub on_error {ℓ} : {A : Type ℓ} → (Error → Error) → Io A → Io A
on_error f m c = mapped f (m c)

-- The error of `io.ReadFull` when the input ends too early: `io.EOF` becomes
-- `io.ErrUnexpectedEOF` after the first byte.
abbrev pub read_error : Bytes → Error → Error
read_error [] e = e
read_error (b ∷ bs) (sentinel eof) = sentinel unexpected_eof
read_error (b ∷ bs) e = e

-- `io.ReadFull` into a buffer of `n` bytes.
unfoldable pub read_full : ℕ → Io Bytes
read_full n c =
    if leb n (length c.input)
    then (ok (take n c.input), record c { input = drop n c.input })
    else (err (read_error c.input c.input_end), record c { input = [] })

abbrev pub written : Bytes → Conn → List WriteOutcome → Result ℕ × Conn
written p c [] = (ok (length p), record c { output = c.output ++ p; writes = [] })
written p c (full ∷ ws) = (ok (length p), record c { output = c.output ++ p; writes = ws })
written p c (short k ∷ ws) =
    (ok (length (take k p)), record c { output = c.output ++ take k p; writes = ws })
written p c (fails k e ∷ ws) = (err e, record c { output = c.output ++ take k p; writes = ws })

-- `Write`: the number of bytes written.
unfoldable pub write : Bytes → Io ℕ
write p c = written p c c.writes

-- `SetDeadline(time.Now().Add(d))`, and `SetDeadline(time.Time{})` for `none`; the first argument
-- is the error that the call returns, if any.
abbrev pub set_deadline : Option Error → Option ℤ → Io (Unit {0})
set_deadline none d c = (ok tt, record c { deadline = d; deadlines = d ∷ c.deadlines })
set_deadline (some e) d c = (err e, c)

-- An operation of the environment that fails with the error, if any.
abbrev pub outcome : Option Error → Io (Unit {0})
outcome none c = (ok tt, c)
outcome (some e) c = (err e, c)

abbrev pub lift {ℓ} : {A : Type ℓ} → Result A → Io A
lift r c = (r, c)

abbrev pub close_failed_conn {ℓ} :
    {A : Type ℓ} → (Error → Error) → Result A × Conn → Result A × Conn
close_failed_conn f (ok a, c) = (ok a, c)
close_failed_conn f (err e, c) = (err (f e), record c { closed = true })

-- `if err != nil { _ = conn.Close(); return ..., fmt.Errorf(...) }`.
abbrev pub or_close {ℓ} : {A : Type ℓ} → (Error → Error) → Io A → Io A
or_close f m c = close_failed_conn f (m c)

-- `_ = call()`: the error is dropped.
abbrev pub ignore {ℓ} : {A : Type ℓ} → Io A → Io (Unit {0})
ignore m c = (ok tt, (m c).1)

-- Inversion of a step that succeeded.
proceed-ok {ℓ κ} :
    {A : Type ℓ} {B : Type κ} (p : Result A × Conn) (f : A → Io B) {b : B} {c' : Conn}
    → proceed p f ≡ (ok b, c')
    → (a : A) × (d : Conn) × (p ≡ (ok a, d)) × (f a d ≡ (ok b, c'))
proceed-ok (ok a, d) f h = (a, d, refl, h)
proceed-ok (err e, d) f h = cc (ap (λ q. q.0) h)

pub >>=-ok {ℓ κ} :
    {A : Type ℓ} {B : Type κ} (m : Io A) (f : A → Io B) (c : Conn) {b : B} {c' : Conn}
    → (m >>= f) c ≡ (ok b, c')
    → (a : A) × (d : Conn) × (m c ≡ (ok a, d)) × (f a d ≡ (ok b, c'))
>>=-ok m f c h = proceed-ok (m c) f h

mapped-ok {ℓ} :
    {A : Type ℓ} (f : Error → Error) (p : Result A × Conn) {a : A} {c' : Conn}
    → mapped f p ≡ (ok a, c')
    → p ≡ (ok a, c')
mapped-ok f (ok a, d) h = h
mapped-ok f (err e, d) h = cc (ap (λ q. q.0) h)

pub on_error-ok {ℓ} :
    {A : Type ℓ} (f : Error → Error) (m : Io A) (c : Conn) {a : A} {c' : Conn}
    → on_error f m c ≡ (ok a, c')
    → m c ≡ (ok a, c')
on_error-ok f m c h = mapped-ok f (m c) h

close_failed_conn-ok {ℓ} :
    {A : Type ℓ} (f : Error → Error) (p : Result A × Conn) {a : A} {c' : Conn}
    → close_failed_conn f p ≡ (ok a, c')
    → p ≡ (ok a, c')
close_failed_conn-ok f (ok a, d) h = h
close_failed_conn-ok f (err e, d) h = cc (ap (λ q. q.0) h)

pub or_close-ok {ℓ} :
    {A : Type ℓ} (f : Error → Error) (m : Io A) (c : Conn) {a : A} {c' : Conn}
    → or_close f m c ≡ (ok a, c')
    → m c ≡ (ok a, c')
or_close-ok f m c h = close_failed_conn-ok f (m c) h

pub write_full :
    (p : Bytes) (c : Conn) (ws : List WriteOutcome)
    → c.writes ≡ full ∷ ws
    → write p c ≡ (ok (length p), record c { output = c.output ++ p; writes = ws })
unfolding write
write_full p c ws h = ground arith

pub write_rest :
    (p : Bytes) (c : Conn)
    → c.writes ≡ []
    → write p c ≡ (ok (length p), record c { output = c.output ++ p; writes = [] })
unfolding write
write_rest p c h = ground arith

pub write_short :
    (p : Bytes) (c : Conn) (k : ℕ) (ws : List WriteOutcome)
    → c.writes ≡ short k ∷ ws
    → write p c ≡ (ok (length (take k p)), record c { output = c.output ++ take k p; writes = ws })
unfolding write
write_short p c k ws h = ground arith
