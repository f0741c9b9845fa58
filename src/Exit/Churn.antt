-- ===== src/Exit/Churn.antt =====
-- The broker's loop over the connector that it polls (internal/exit/broker.go over
-- internal/transport/connector.go): the two run in goroutines of their own.
pub mod Served
pub mod Tests
use mhp.Prelude.{ℕ, Option, List, [], ◌∷◌, ◌++◌}
use mhp.Errors.{Error}
use mhp.Transport.Timing.{Timing}
use mhp.Transport.Connector.{Phase, connecting, Connector, Event, connects, step, snapshot}
use mhp.Exit.Broker.Links.{Turn}

-- What happens: an event of the connector, or a turn of the broker's loop with what its context
-- says, at its start and when it ends the sleep.
pub data Moment : Type 0 where
  connector_does : Event → Moment
  looks : Option Error → Option Error → Moment

-- The turns of the broker's loop: each calls `Snapshot` on the connector as it stands.
unfoldable pub seen : Timing → Connector → List Moment → List Turn
seen t c [] = []
seen t c (connector_does event ∷ moments) = seen t (step t c event) moments
seen t c (looks cancelled woken ∷ moments) =
    record { cancelled = cancelled; snapshot = snapshot c; woken = woken } ∷ seen t c moments

-- The link that `connect` returns to `Run`.
abbrev pub new_link : Phase → Event → List ℕ
new_link connecting (connects link) = link ∷ []
new_link phase event = []

-- The links that `connect` returned, in order.
unfoldable pub connected : Timing → Connector → List Moment → List ℕ
connected t c [] = []
connected t c (connector_does event ∷ moments) =
    new_link c.phase event ++ connected t (step t c event) moments
connected t c (looks cancelled woken ∷ moments) = connected t c moments
