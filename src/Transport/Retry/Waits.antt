-- ===== src/Transport/Retry/Waits.antt =====
-- How long a client keeps trying (internal/transport/authenticator.go).
use mathlib.Core.List.{Perm}
use mhp.Prelude.{
  ℕ, suc, ◌+◌, ◌^◌, ◌≡◌, refl, true, ℤ, pos, ltℤ, leℤ, none, List, [], ◌∷◌, ◌++◌, All, length,
  arith,
}
use mhp.Errors.{Error, ok, err}
use mhp.Transport.Timing.{Timing, validate, backoff}
use mhp.Transport.Timing.Backoff.{backoff_bounds}
use mhp.Transport.Handshake.{Session}
use mhp.Transport.Retry.{Attempt, RunResult, authenticated, waited, run}

-- An attempt that fails, with a wait that is not cut short and a jitter of at most the floor.
pub record IsFailure (t : Timing) (a : Attempt) : Type 0 where
  pub reason : Error
  pub failed : a.answer ≡ err reason
  pub patient : a.cancelled ≡ none
  pub fair : leℤ (pos a.jitter) t.min_backoff ≡ true

abbrev pub Within : Timing → ℤ → Type 0
Within t d = (leℤ t.min_backoff d ≡ true) × (leℤ d t.max_backoff ≡ true)

-- What `Run` returned, and its delays.
pub record Waits (t : Timing) (s : Session) (n : ℕ) (p : RunResult × List ℤ) : Type 0 where
  pub succeeds : p.0 ≡ authenticated s
  pub count : length p.1 ≡ n
  pub bounded : All (Within t) p.1

waited-Waits :
    (t : Timing) (s : Session) (n : ℕ) (d : ℤ) (p : RunResult × List ℤ)
    → Within t d
    → Waits t s n p
    → Waits t s (suc n) (waited d p)
waited-Waits t s n d (r, ds) h w = record {
  succeeds = w.succeeds;
  count = omega (arith, w.count);
  bounded = (h, w.bounded);
}

module _ (order : List ℤ → List ℤ) (t : Timing) where
  run-from :
      (n : ℕ) (attempts rest : List Attempt) (last : Attempt) (s : Session)
      → ((ds : List ℤ) → Perm (order ds) ds)
      → validate order t ≡ ok tt
      → ltℤ t.max_backoff (pos (2 ^ 62)) ≡ true
      → All (IsFailure t) attempts
      → last.answer ≡ ok s
      → Waits t s (length attempts) (run t n (attempts ++ last ∷ rest))
  unfolding run
  run-from n [] rest last s perm v small f h =
      rw h (record { succeeds = refl; count = refl; bounded = tt })
  run-from n (a ∷ attempts) rest last s perm v small f h =
      let later = run-from (n + 1) attempts rest last s perm v small f.1 h in
      rw (f.0.failed, f.0.patient)
        (waited-Waits t s (length attempts) (backoff t n (pos a.jitter))
          (run t (n + 1) (attempts ++ last ∷ rest))
          (backoff_bounds order t n a.jitter perm v small f.0.fair) later)

  -- A client whose attempts fail any number of times, and then succeed, gets the session of that
  -- success after as many waits as failures, each between the floor and the ceiling of its schedule,
  -- which is an accepted one with a ceiling below 2^62 ns.
  pub run-Waits :
      (attempts rest : List Attempt) (last : Attempt) (s : Session)
      → ((ds : List ℤ) → Perm (order ds) ds)
      → validate order t ≡ ok tt
      → ltℤ t.max_backoff (pos (2 ^ 62)) ≡ true
      → All (IsFailure t) attempts
      → last.answer ≡ ok s
      → Waits t s (length attempts) (run t 0 (attempts ++ last ∷ rest))
  run-Waits = run-from 0
