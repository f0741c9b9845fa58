-- ===== src/Exit/Churn/Served.antt =====
-- Which links the exit serves (internal/exit/broker.go over internal/transport/connector.go).
use mathlib.Core.List.{Sublist, Nodup, append_assoc, append-nil, nil-sublist, sublist-append_right}
use mathlib.Core.List.Sublist
use mathlib.Core.List.Nodup
use mathlib.Core.Path.{subst}
use mhp.Prelude.{
  ℕ, ◌≡◌, refl, sym, Bool, true, false, inl, inr, Bool-cases, ◌==◌, ==_refl, Option, none, some,
  List, [], ◌∷◌, ◌++◌, arith,
}
use mhp.Errors.{Error}
use mhp.Transport.Timing.{Timing}
use mhp.Transport.Connector.{
  Phase, connecting, waiting, serving, Connector, Event, connect_fails, connects, timer_fires,
  session_ends, parent_cancelled, start, snapshot, clear_if, advance, step, swapped,
}
use mhp.Transport.Connector.Snapshot.{after_session-current}
use mhp.Exit.Broker.Links.{Turn, Ran, stalls, turned}
use mhp.Exit.Broker.Links
use mhp.Exit.Churn.{Moment, connector_does, looks, seen, new_link, connected}

-- The published link, where the broker has not seen it.
abbrev fresh : Bool → ℕ → List ℕ
fresh true link = []
fresh false link = link ∷ []

abbrev pending : Option ℕ → Option ℕ → List ℕ
pending none last = []
pending (some link) last = fresh (stalls (some link) last) link

fresh_left : (b : Bool) (link : ℕ) → Sublist (fresh b link) (link ∷ [])
fresh_left true link = Sublist.cons link (Sublist.refl [])
fresh_left false link = Sublist.refl (link ∷ [])

pending_left : (link : ℕ) (last : Option ℕ) → Sublist (pending (some link) last) (link ∷ [])
pending_left link last = fresh_left (stalls (some link) last) link

pending-seen : (link : ℕ) → pending (some link) (some link) ≡ []
pending-seen link = rw (==_refl link) refl

unchanged :
    (current after last : Option ℕ)
    → after ≡ current
    → Sublist (pending after last) (pending current last ++ [])
unchanged current after last h =
    rw (h, append-nil (pending current last)) (Sublist.refl (pending current last))

cleared :
    (current last : Option ℕ) (link : ℕ)
    → Sublist (pending (swapped current link) last) (pending current last ++ [])
cleared none last link = Sublist.refl []
cleared (some l) last link = elim (Bool-cases (l == link)) [
  | inl e ↦ rw e (nil-sublist _)
  | inr e ↦ rw (e, append-nil (pending (some l) last)) (Sublist.refl _)
]

-- What an event leaves to be seen was to be seen before it, or is the link that it connects.
advance-pending :
    (t : Timing) (last : Option ℕ) (phase : Phase) (event : Event) (c : Connector)
    → Sublist
        (pending (advance t phase event c).current last)
        (pending c.current last ++ new_link phase event)
unfolding advance clear_if
advance-pending t last connecting (connects link) c =
    Sublist.trans (pending_left link last)
      (sublist-append_right (pending c.current last) (link ∷ []))
advance-pending t last connecting (connect_fails e) c = unchanged c.current _ last (ground arith)
advance-pending t last (serving link) (session_ends uptime) c =
    subst (λ x. Sublist (pending x last) (pending c.current last ++ []))
      (sym (after_session-current t uptime _)) (cleared c.current last link)
advance-pending t last waiting timer_fires c = unchanged c.current c.current last refl
advance-pending t last waiting parent_cancelled c = unchanged c.current c.current last refl
advance-pending t last (serving link) parent_cancelled c = unchanged c.current c.current last refl
advance-pending t last phase event c = unchanged c.current c.current last refl

-- A turn of the broker's loop whose context is not done, over the next turns.
looked :
    (current last : Option ℕ) (woken : Option Error) (stall serve : Ran) (rest : List ℕ)
    → Sublist stall.links (pending current last ++ rest)
    → Sublist serve.links (pending current current ++ rest)
    → Sublist
        (turned last
          (record { cancelled = none; snapshot = current; woken = woken })
          stall
          serve).links
        (pending current last ++ rest)
looked none last none stall serve rest p q = p
looked none last (some e) stall serve rest p q = nil-sublist _
looked (some link) last woken stall serve rest p q = elim (Bool-cases (stalls (some link) last)) [
  | inl h ↦ rw h (stalled woken h)
  | inr h ↦ rw h (
      Sublist.cons-cons link (subst (λ xs. Sublist serve.links (xs ++ rest)) (pending-seen link) q))
]
  where
    stalled :
        (w : Option Error)
        → stalls (some link) last ≡ true
        → Sublist
            (turned
              (some link)
              (record { cancelled = none; snapshot = none; woken = w })
              stall
              serve).links
            rest
    stalled none h = subst (λ b. Sublist stall.links (fresh b link ++ rest)) h p
    stalled (some e) h = nil-sublist rest

-- The links that the broker serves are to be seen, or connected later.
ahead :
    (t : Timing) (last : Option ℕ) (c : Connector) (moments : List Moment)
    → Sublist
        (Links.run last (seen t c moments)).links
        (pending c.current last ++ connected t c moments)
unfolding Links.run seen connected step snapshot
ahead t last c [] = nil-sublist _
ahead t last c (connector_does event ∷ moments) =
    Sublist.trans (ahead t last (step t c event) moments) (
      subst
        (λ xs.
          Sublist (pending (step t c event).current last ++ connected t (step t c event) moments)
            xs)
        (append_assoc (pending c.current last) (new_link c.phase event)
          (connected t (step t c event) moments))
        (Sublist.append (advance-pending t last c.phase event c)
          (Sublist.refl (connected t (step t c event) moments))))
ahead t last c (looks (some e) woken ∷ moments) = nil-sublist _
ahead t last c (looks none woken ∷ moments) =
    looked c.current last woken _ _ (connected t c moments) (ahead t last c moments)
      (ahead t c.current c moments)

-- However the events of the connector interleave with the broker's turns: the links that the broker
-- serves are among those that the connector established, in that order; and when these are distinct
-- sessions, as each is a new one, no session is served twice.
pub served-once :
    (t : Timing) (moments : List Moment)
    → Nodup (connected t (start t) moments)
    → Sublist (Links.run none (seen t (start t) moments)).links (connected t (start t) moments)
      × Nodup (Links.run none (seen t (start t) moments)).links
unfolding start
served-once t moments distinct =
    let sub = ahead t none (start t) moments in (sub, Nodup.sublist sub distinct)
