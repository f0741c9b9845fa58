-- ===== src/Exit/Resolver/Ended.antt =====
-- The resolver once its base context has ended (internal/exit/resolver.go).
use mathlib.Core.List.{append_assoc}
use mhp.Prelude.{
  ℕ, ◌+◌, ◌≤◌, ◌≡◌, refl, ap, ◌∙◌, sym, Option, none, some, List, [], ◌∷◌, ◌++◌, Bytes, get_elem?,
  length, length-erase_idx, arith,
}
use mhp.Errors.{Error, Result, err}
use mhp.Exit.Resolver.{
  Resolver, entered, enter, acquire_call, acquire, leave_call, leave, conclude, finish_call, finish,
  Event, calls, acquires, leaves, returns, base_ends, step, run,
}

-- The calls that have not returned.
abbrev pub open_calls : Resolver → ℕ
open_calls r = length r.waiting + length r.looking

-- What a step of a resolver whose base ended with `e` keeps: the error, no further open call, and
-- the results so far.
record Winds (e : Error) (r s : Resolver) : Type 0 where
  base : s.base ≡ some e
  fewer : open_calls s ≤ open_calls r
  kept : List (ℕ × Result Bytes)
  results : s.returned ≡ kept ++ r.returned

same-Winds : (e : Error) (r : Resolver) → r.base ≡ some e → Winds e r r
same-Winds e r b = record { base = b; fewer = omega arith; kept = []; results = refl }

trans-Winds : (e : Error) (r s t : Resolver) → Winds e r s → Winds e s t → Winds e r t
trans-Winds e r s t a b = record {
  base = b.base;
  fewer = omega (arith, a.fewer, b.fewer);
  kept = b.kept ++ a.kept;
  results = rw (b.results, a.results) (sym (append_assoc b.kept a.kept r.returned));
}

entered-Winds :
    (e : Error) (r : Resolver) (call : ℕ) (base : Option Error)
    → base ≡ some e
    → r.base ≡ some e
    → Winds e r (entered r call base)
entered-Winds e r call base h b =
    rw h (record { base = b; fewer = omega arith; kept = (call, err e) ∷ []; results = refl })

entered-returned :
    (e : Error) (r : Resolver) (call : ℕ) (base : Option Error)
    → base ≡ some e
    → (entered r call base).returned ≡ (call, err e) ∷ r.returned
entered-returned e r call base h = rw h refl

acquire-Winds :
    (e : Error) (r : Resolver) (n : ℕ) (call : Option ℕ)
    → get_elem? r.waiting n ≡ call
    → r.base ≡ some e
    → Winds e r (acquire_call r n call)
acquire-Winds e r n none h b = same-Winds e r b
acquire-Winds e r n (some call) h b = record {
  base = ground (arith, b);
  fewer = ground (arith, length-erase_idx n call r.waiting h);
  kept = [];
  results = ground arith;
}

leave-Winds :
    (e : Error) (r : Resolver) (n : ℕ) (base : Option Error) (call : Option ℕ)
    → base ≡ some e
    → get_elem? r.waiting n ≡ call
    → r.base ≡ some e
    → Winds e r (leave_call r n base call)
leave-Winds e r n base none k h b = rw k (same-Winds e r b)
leave-Winds e r n base (some call) k h b = rw k (record {
  base = b;
  fewer = omega (arith, length-erase_idx n call r.waiting h);
  kept = (call, err e) ∷ [];
  results = refl;
})

finish-Winds :
    (e : Error) (r : Resolver) (n : ℕ) (addrs : Result (List Bytes)) (call : Option ℕ)
    → get_elem? r.looking n ≡ call
    → r.base ≡ some e
    → Winds e r (finish_call r n addrs call)
finish-Winds e r n addrs none h b = same-Winds e r b
finish-Winds e r n addrs (some call) h b = record {
  base = b;
  fewer = omega (arith, length-erase_idx n call r.looking h);
  kept = (call, conclude addrs) ∷ [];
  results = refl;
}

step-Winds : (e : Error) (r : Resolver) (event : Event) → r.base ≡ some e → Winds e r (step r event)
unfolding step enter acquire leave finish
step-Winds e r (calls call) b = entered-Winds e r call r.base b b
step-Winds e r (acquires n) b = acquire-Winds e r n (get_elem? r.waiting n) refl b
step-Winds e r (leaves n) b = leave-Winds e r n r.base (get_elem? r.waiting n) b refl b
step-Winds e r (returns n addrs) b = finish-Winds e r n addrs (get_elem? r.looking n) refl b
step-Winds e r (base_ends later) b = record {
  base = rw b refl;
  fewer = omega arith;
  kept = [];
  results = refl;
}

run-Winds :
    (e : Error) (r : Resolver) (events : List Event) → r.base ≡ some e → Winds e r (run r events)
unfolding run
run-Winds e r [] b = same-Winds e r b
run-Winds e r (event ∷ events) b =
    let first = step-Winds e r event b in
    trans-Winds e r (step r event) (run (step r event) events) first
      (run-Winds e (step r event) events first.base)

run-append :
    (r : Resolver) (first second : List Event) → run r (first ++ second) ≡ run (run r first) second
unfolding run
run-append r [] second = refl
run-append r (event ∷ first) second = run-append (step r event) first second

-- Once the base context has ended, whatever the limiter holds and whatever still happens: each
-- further call returns the context's error, among the results since, and no more calls are open than
-- when it ended.
pub run-ended :
    (r : Resolver) (e : Error) (before later : List Event) (call : ℕ)
    → r.base ≡ some e
    → ((first : List (ℕ × Result Bytes)) × (last : List (ℕ × Result Bytes)) × ((run r
            (before ++ calls call ∷ later)).returned
          ≡ first ++ (call, err e) ∷ (last ++ r.returned)))
      × (open_calls (run r (before ++ calls call ∷ later)) ≤ open_calls r)
unfolding run step enter
run-ended r e before later call b =
    let mid = run r before in
    let first = run-Winds e r before b in
    let answer = entered mid call mid.base in
    let all = run-Winds e r (before ++ calls call ∷ later) b in
    let last =
      run-Winds e answer later (entered-Winds e mid call mid.base first.base first.base).base in
    (
      (
        last.kept,
        first.kept,
        (ap (λ s. s.returned) (run-append r before (calls call ∷ later))
            ∙ last.results
            ∙ ap (λ rs. last.kept ++ rs)
                (entered-returned e mid call mid.base first.base
                  ∙ ap (λ rs. (call, err e) ∷ rs) first.results)),
      ),
      all.fewer,
    )
