-- ===== src/Exit/Resolver/Bounds.antt =====
-- The lookups of the bounded resolver (internal/exit/resolver.go).
use mhp.Prelude.{
  ℕ, zero, suc, ℤ, pos, negsuc, ◌+◌, ◌≤◌, ◌≡◌, refl, Option, none, some, List, [], ◌∷◌, ◌++◌, Bytes,
  get_elem?, length, length-erase_idx, times, times-append, times-erase_idx, arith,
}
use mhp.Errors.{Error, Result}
use mhp.Exit.Resolver.{
  Resolver, new_bounded_resolver, entered, enter, acquire_call, acquire, leave_call, leave,
  finish_call, finish, Event, calls, acquires, leaves, returns, base_ends, step, run,
}

abbrev pub called : List Event → List ℕ
called [] = []
called (calls call ∷ events) = call ∷ called events
called (event ∷ events) = called events

abbrev pub answered : List (ℕ × Result Bytes) → List ℕ
answered [] = []
answered ((call, r) ∷ rs) = call ∷ answered rs

-- The limiter has the given number of slots and counts the lookups within it; each call waits, looks up or has
-- returned, as often as it was made.
pub record IsSound (made : List ℕ) (room : ℕ) (r : Resolver) : Type 0 where
  pub given : r.bound ≡ room
  pub counted : r.limiter ≡ length r.looking
  pub limit : r.limiter ≤ room
  pub held :
      (x : ℕ) → times x r.waiting + times x r.looking + times x (answered r.returned) ≡ times x made

enter-IsSound :
    (made : List ℕ) (room : ℕ) (r : Resolver) (call : ℕ) (base : Option Error)
    → IsSound made room r
    → IsSound (call ∷ made) room (entered r call base)
enter-IsSound made room r call base s = record {
  given = ground (arith, s.given);
  counted = ground (arith, s.counted);
  limit = ground (arith, s.limit, s.given);
  held = λ x. ground (arith, s.held x);
}

acquire-IsSound :
    (made : List ℕ) (room : ℕ) (r : Resolver) (n : ℕ) (call : Option ℕ)
    → get_elem? r.waiting n ≡ call
    → IsSound made room r
    → IsSound made room (acquire_call r n call)
acquire-IsSound made room r n none h s = s
acquire-IsSound made room r n (some call) h s = record {
  given = ground (arith, s.given);
  counted = ground (arith, s.counted);
  limit = ground (arith, s.limit, s.given);
  held = λ x. ground (arith, s.held x, times-erase_idx x call n r.waiting h);
}

leave-IsSound :
    (made : List ℕ) (room : ℕ) (r : Resolver) (n : ℕ) (base : Option Error) (call : Option ℕ)
    → get_elem? r.waiting n ≡ call
    → IsSound made room r
    → IsSound made room (leave_call r n base call)
leave-IsSound made room r n none call h s = s
leave-IsSound made room r n (some e) none h s = s
leave-IsSound made room r n (some e) (some call) h s = record {
  given = s.given;
  counted = s.counted;
  limit = s.limit;
  held = λ x. ground (arith, s.held x, times-erase_idx x call n r.waiting h);
}

finish-IsSound :
    (made : List ℕ) (room : ℕ) (r : Resolver) (n : ℕ) (addrs : Result (List Bytes))
    (call : Option ℕ)
    → get_elem? r.looking n ≡ call
    → IsSound made room r
    → IsSound made room (finish_call r n addrs call)
finish-IsSound made room r n addrs none h s = s
finish-IsSound made room r n addrs (some call) h s = record {
  given = s.given;
  counted = omega (arith, s.counted, length-erase_idx n call r.looking h);
  limit = omega (arith, s.limit, s.given);
  held = λ x. ground (arith, s.held x, times-erase_idx x call n r.looking h);
}

recounted :
    (made made' : List ℕ) (room : ℕ) (r : Resolver)
    → ((x : ℕ) → times x made ≡ times x made')
    → IsSound made room r
    → IsSound made' room r
recounted made made' room r h s = record {
  given = s.given;
  counted = s.counted;
  limit = s.limit;
  held = λ x. omega (arith, s.held x, h x);
}

step-IsSound :
    (made : List ℕ) (room : ℕ) (r : Resolver) (event : Event)
    → IsSound made room r
    → IsSound (called (event ∷ []) ++ made) room (step r event)
unfolding step enter acquire leave finish
step-IsSound made room r (calls call) s = enter-IsSound made room r call r.base s
step-IsSound made room r (acquires n) s =
    acquire-IsSound made room r n (get_elem? r.waiting n) refl s
step-IsSound made room r (leaves n) s =
    leave-IsSound made room r n r.base (get_elem? r.waiting n) refl s
step-IsSound made room r (returns n addrs) s =
    finish-IsSound made room r n addrs (get_elem? r.looking n) refl s
step-IsSound made room r (base_ends e) s = record {
  given = s.given;
  counted = s.counted;
  limit = s.limit;
  held = s.held;
}

called-cons :
    (x : ℕ) (event : Event) (events : List Event) (made : List ℕ)
    → times x (called events ++ (called (event ∷ []) ++ made))
      ≡ times x (called (event ∷ events) ++ made)
called-cons x (calls call) events made =
    ground
      (arith, times-append x (called events) (call ∷ made), times-append x (called events) made)
called-cons x (acquires n) events made = refl
called-cons x (leaves n) events made = refl
called-cons x (returns n addrs) events made = refl
called-cons x (base_ends e) events made = refl

run-IsSound :
    (made : List ℕ) (room : ℕ) (r : Resolver) (events : List Event)
    → IsSound made room r
    → IsSound (called events ++ made) room (run r events)
unfolding run
run-IsSound made room r [] s = s
run-IsSound made room r (event ∷ events) s =
    recounted (called events ++ (called (event ∷ []) ++ made)) (called (event ∷ events) ++ made)
      room (run (step r event) events) (λ x. called-cons x event events made)
      (run-IsSound (called (event ∷ []) ++ made) room (step r event) events
        (step-IsSound made room r event s))

-- The lookups that a bound admits at once: a bound of at least 1 itself, and one for any other.
abbrev pub room_for : ℤ → ℕ
room_for (pos (suc n)) = suc n
room_for _ = 1

slots-room_for : (bound : ℤ) → (new_bounded_resolver bound).bound ≡ room_for bound
unfolding new_bounded_resolver
slots-room_for (pos zero) = refl
slots-room_for (pos (suc n)) = ground arith
slots-room_for (negsuc n) = refl

-- Whatever bound a new resolver is given, and however its calls and lookups interleave: at most that
-- many lookups, or one where the bound is less than 1, run at once, as many as the limiter counts,
-- the limiter has exactly this many slots, and each call waits for a slot, is looking up or has
-- returned, exactly one of the three.
pub run-new_bounded_resolver-IsSound :
    (bound : ℤ) (events : List Event)
    → IsSound (called events) (room_for bound) (run (new_bounded_resolver bound) events)
unfolding new_bounded_resolver
run-new_bounded_resolver-IsSound bound events =
    recounted (called events ++ []) (called events) (room_for bound)
      (run (new_bounded_resolver bound) events)
      (λ x. omega (arith, times-append x (called events) []))
      (run-IsSound [] (room_for bound) (new_bounded_resolver bound) events (record {
        given = slots-room_for bound;
        counted = refl;
        limit = omega arith;
        held = λ x. refl;
      }))
