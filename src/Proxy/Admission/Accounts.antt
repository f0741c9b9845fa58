-- ===== src/Proxy/Admission/Accounts.antt =====
-- Every connection of the proxy is accounted for (internal/proxy/listener.go).
use mhp.Prelude.{
  ℕ, ◌+◌, ◌≤◌, ◌≡◌, refl, inl, inr, Bool-cases, ltb, Option, none, some, List, [], ◌∷◌, ◌++◌,
  get_elem?, length, length-erase_idx, times, times-append, times-erase_idx, arith,
}
use mhp.Proxy.Admission.{
  max_pending, Listener, new_listener, acquire, release, serve, end_conn, done, Event, accepts,
  ends, step, run,
}

abbrev pub accepted : List Event → List ℕ
accepted [] = []
accepted (accepts conn ∷ events) = conn ∷ accepted events
accepted (ends n ∷ events) = accepted events

-- The semaphore counts the connections that are served, at most 256; a connection is served or
-- closed, as often as it was accepted.
pub record IsSound (conns : List ℕ) (l : Listener) : Type 0 where
  pub counted : l.sem ≡ length l.serving
  pub limit : l.sem ≤ max_pending
  pub held : (x : ℕ) → times x l.serving + times x l.closed ≡ times x conns

serve-IsSound :
    (conns : List ℕ) (l : Listener) (conn : ℕ)
    → IsSound conns l
    → IsSound (conn ∷ conns) (serve l conn)
unfolding serve acquire
serve-IsSound conns l conn s = elim (Bool-cases (ltb l.sem max_pending)) [
  | inl e ↦
      rw (e, serve)
        (record {
          counted = omega (arith, s.counted);
          limit = ground (arith, e);
          held = λ x. ground (arith, s.held x);
        })
  | inr e ↦
      rw (e, serve)
        (record { counted = s.counted; limit = s.limit; held = λ x. ground (arith, s.held x) })
]

end_conn-IsSound :
    (conns : List ℕ) (l : Listener) (n : ℕ) (conn : Option ℕ)
    → get_elem? l.serving n ≡ conn
    → IsSound conns l
    → IsSound conns (end_conn l n conn)
unfolding release
end_conn-IsSound conns l n none h s = s
end_conn-IsSound conns l n (some conn) h s = record {
  counted = omega (arith, s.counted, length-erase_idx n conn l.serving h);
  limit = omega (arith, s.limit);
  held = λ x. ground (arith, s.held x, times-erase_idx x conn n l.serving h);
}

done-IsSound : (conns : List ℕ) (l : Listener) (n : ℕ) → IsSound conns l → IsSound conns (done l n)
unfolding done
done-IsSound conns l n s = end_conn-IsSound conns l n (get_elem? l.serving n) refl s

recounted :
    (conns conns' : List ℕ) (l : Listener)
    → ((x : ℕ) → times x conns ≡ times x conns')
    → IsSound conns l
    → IsSound conns' l
recounted conns conns' l h s = record {
  counted = s.counted;
  limit = s.limit;
  held = λ x. omega (arith, s.held x, h x);
}

run-IsSound :
    (conns : List ℕ) (l : Listener) (events : List Event)
    → IsSound conns l
    → IsSound (accepted events ++ conns) (run l events)
unfolding run step
run-IsSound conns l [] s = s
run-IsSound conns l (accepts conn ∷ events) s =
    recounted (accepted events ++ conn ∷ conns) (conn ∷ accepted events ++ conns)
      (run (serve l conn) events)
      (λ x. ground (
        arith,
        times-append x (accepted events) (conn ∷ conns),
        times-append x (accepted events) conns,
      ))
      (run-IsSound (conn ∷ conns) (serve l conn) events (serve-IsSound conns l conn s))
run-IsSound conns l (ends n ∷ events) s =
    run-IsSound conns (done l n) events (done-IsSound conns l n s)

-- Whatever connections a new listener accepts and however they end, in any order: the semaphore
-- holds as many elements as connections are served, at most 256 of them, and each connection is
-- served or was closed, together as often as it was accepted.
pub run-new_listener-IsSound :
    (events : List Event) → IsSound (accepted events) (run new_listener events)
unfolding new_listener
run-new_listener-IsSound events =
    recounted (accepted events ++ []) (accepted events) (run new_listener events)
      (λ x. omega (arith, times-append x (accepted events) []))
      (run-IsSound [] new_listener events
        (record { counted = refl; limit = omega arith; held = λ x. refl }))
