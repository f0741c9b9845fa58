-- ===== src/Exit/Resolver.antt =====
-- internal/exit/resolver.go: the bounded resolver, as steps of its calls. A call is a number; the
-- buffered channel `limiter` is the number of its elements, and `base` is `r.base.Err()`.
pub mod Bounds
pub mod Ended
pub mod Tests
use mhp.Prelude.{
  ℕ, ℤ, pos, negsuc, ◌+◌, ◌-◌, Bool, true, false, ltb, Option, none, some, List, [], ◌∷◌, Bytes,
  get_elem?, erase_idx, if◌then◌else◌,
}
use mhp.Errors.{Error, Result, ok, err, sentinel, net_closed}

pub record Resolver : Type 0 where
  pub bound : ℕ
  pub limiter : ℕ
  pub base : Option Error
  -- the calls in the select, those in `r.resolve`, and those that returned, with their results
  pub waiting : List ℕ
  pub looking : List ℕ
  pub returned : List (ℕ × Result Bytes)

abbrev pub slots : ℤ → ℕ
slots (pos n) = if ltb n 1 then 1 else n
slots (negsuc n) = 1

-- `newBoundedResolver`.
unfoldable pub new_bounded_resolver : ℤ → Resolver
new_bounded_resolver bound = record {
  bound = slots bound;
  limiter = 0;
  base = none;
  waiting = [];
  looking = [];
  returned = [];
}

abbrev pub entered : Resolver → ℕ → Option Error → Resolver
entered r call (some e) = record r { returned = (call, err e) ∷ r.returned }
entered r call none = record r { waiting = call ∷ r.waiting }

-- `Resolve` up to its select.
unfoldable pub enter : Resolver → ℕ → Resolver
enter r call = entered r call r.base

abbrev pub acquire_call : Resolver → ℕ → Option ℕ → Resolver
acquire_call r n none = r
acquire_call r n (some call) =
    if ltb r.limiter r.bound
    then record r {
      limiter = r.limiter + 1;
      waiting = erase_idx r.waiting n;
      looking = call ∷ r.looking;
    }
    else r

-- The n-th waiting call takes a slot, if there is one.
unfoldable pub acquire : Resolver → ℕ → Resolver
acquire r n = acquire_call r n (get_elem? r.waiting n)

abbrev pub leave_call : Resolver → ℕ → Option Error → Option ℕ → Resolver
leave_call r n (some e) (some call) = record r {
  waiting = erase_idx r.waiting n;
  returned = (call, err e) ∷ r.returned;
}
leave_call r n _ _ = r

-- The n-th waiting call sees `r.base.Done()`.
unfoldable pub leave : Resolver → ℕ → Resolver
leave r n = leave_call r n r.base (get_elem? r.waiting n)

-- What `Resolve` makes of the answer of `r.resolve`.
unfoldable pub conclude : Result (List Bytes) → Result Bytes
conclude (err e) = err e
conclude (ok []) = err (sentinel net_closed)
conclude (ok (ip ∷ ips)) = ok ip

abbrev pub finish_call : Resolver → ℕ → Result (List Bytes) → Option ℕ → Resolver
finish_call r n addrs none = r
finish_call r n addrs (some call) = record r {
  limiter = r.limiter - 1;
  looking = erase_idx r.looking n;
  returned = (call, conclude addrs) ∷ r.returned;
}

-- The lookup of the n-th call returns; the deferred receive gives its slot back.
unfoldable pub finish : Resolver → ℕ → Result (List Bytes) → Resolver
unfolding conclude
finish r n addrs = finish_call r n addrs (get_elem? r.looking n)

-- A context keeps its first error.
abbrev pub ended : Option Error → Error → Option Error
ended (some e) later = some e
ended none e = some e

pub data Event : Type 0 where
  calls acquires leaves : ℕ → Event
  returns : ℕ → Result (List Bytes) → Event
  base_ends : Error → Event

unfoldable pub step : Resolver → Event → Resolver
unfolding enter acquire leave finish
step r (calls call) = enter r call
step r (acquires n) = acquire r n
step r (leaves n) = leave r n
step r (returns n addrs) = finish r n addrs
step r (base_ends e) = record r { base = ended r.base e }

unfoldable pub run : Resolver → List Event → Resolver
run r [] = r
run r (event ∷ events) = run (step r event) events
