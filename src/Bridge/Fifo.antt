-- ===== src/Bridge/Fifo.antt =====
-- The life of a context as a stream: what comes out of the ring is what went in, in its order.
use dispatch_tester.Common.{ℕ, ◌≤◌, Option, some, List, [], ◌∷◌, ◌++◌, length, Run, ok}
use dispatch_tester.Bridge.{Context}
use dispatch_tester.Bridge.Ring.{used}
use dispatch_tester.Bridge.Stream.{front, wake_out, wake_in}
use dispatch_tester.Bridge.Events.{
  Event, amqp_event, raw_event, handle, delivery, connection_wake, raw,
}

-- The raw connection gives back no more buffers than are in use.
abbrev pub IsHonest : Event → Context → Type 0
IsHonest (amqp_event (delivery r)) s = length r.taken ≤ used s
IsHonest (amqp_event (connection_wake r)) s = length r.taken ≤ used s
IsHonest (raw_event (raw taken avail)) s = length taken ≤ used s
IsHonest _ s = Unit

unfoldable pub out_of : Event → Context → List (List ℕ)
out_of (amqp_event (delivery r)) s = wake_out r s
out_of (amqp_event (connection_wake r)) s = wake_out r s
out_of (raw_event (raw taken avail)) s = front taken s
out_of _ s = []

unfoldable pub into_of : Event → Context → List (List ℕ)
into_of (amqp_event (delivery r)) s = wake_in r s
into_of (amqp_event (connection_wake r)) s = wake_in r s
into_of _ s = []

-- What a whole life takes out and puts in, and that the raw connection is honest all along.
abbrev pub next : Run (Option Context) → Context → Context
next (ok (some t)) s = t
next _ s = s

abbrev pub life_out : List Event → Context → List (List ℕ)
life_out [] s = []
life_out (e ∷ es) s = out_of e s ++ life_out es (next (handle e s) s)

abbrev pub life_in : List Event → Context → List (List ℕ)
life_in [] s = []
life_in (e ∷ es) s = into_of e s ++ life_in es (next (handle e s) s)

abbrev pub AreHonest : List Event → Context → Type 0
AreHonest [] s = Unit
AreHonest (e ∷ es) s = IsHonest e s × AreHonest es (next (handle e s) s)
