-- ===== src/Server/Examples.antt =====
-- Runs of the server: a peer that receives, and one that sends two messages.
use dispatch_tester.Common.{
  ℕ, ◌-◌, refl, true, false, Bool, List, [], ◌∷◌, if◌then◌else◌, ltb, pos, Returns, arith,
}
use dispatch_tester.Proton
use dispatch_tester.Proton.Message.{DataCall, Encoded, overflow, encoded}
use dispatch_tester.Proton.Program.{Round}
use dispatch_tester.Server.{
  Server, Delivery, Event, listener_accept, sender_remote_open, receiver_remote_open, link_flow,
  delivery, handle_all, handle, on_delivery, link_receive, receive_loop, finish, grant,
  delivery_updated, send_loop, send_one, link_send,
}
use dispatch_tester.Server.Main.{defaults}
use dispatch_tester.Server.Accounts.{IsReading}
use dispatch_tester.Server.Window.{IsSupplied, AreAnswers, supply}

-- An encoder that needs 200 octets.
abbrev encode : List DataCall → ℕ → Encoded
encode m size = if ltb size 200 then overflow else encoded 150

-- 100 octets at a time.
abbrev reads : ℕ → Bool × ℕ
reads pending = (false, pending - 100)

reads-IsReading : IsReading reads
reads-IsReading pending positive e = omega arith

abbrev arrives : ℕ → Delivery
arrives credit = record {
  link = 1;
  readable = true;
  partial = false;
  pending = 150;
  recv = reads;
  credit = credit;
  updated = false;
  state = Proton.received;
}

abbrev answered : Delivery
answered = record {
  link = 2;
  readable = false;
  partial = false;
  pending = 0;
  recv = reads;
  credit = 0;
  updated = true;
  state = Proton.accepted;
}

abbrev events : List Event
events = link_flow 2 (pos 3) ∷ delivery (arrives 1) ∷ delivery answered ∷ delivery (arrives 1) ∷ []

abbrev rounds : List (Round Event)
rounds =
    record {
      signal = false;
      events = listener_accept ∷ sender_remote_open 2 "queue" ∷ receiver_remote_open 1 "queue" ∷ [];
    }
    ∷ record { signal = false; events = events }
    ∷ record { signal = true; events = [] }
    ∷ []

abbrev small : Server
small = record defaults { credit_window = 2; encoded_data_size = 150 }

answers : Returns (AreAnswers 1 events) (handle (receiver_remote_open 1 "queue") small)
unfolding handle on_delivery link_receive receive_loop finish grant delivery_updated link_send
    send_loop send_one
answers = (
  tt,
  (
    (reads-IsReading, λ a b c. refl),
    ((reads-IsReading, λ a b c. ground arith), ((reads-IsReading, λ a b c. refl), tt)),
  ),
)

supply_example :
    Returns (IsSupplied 1 2) (handle_all (receiver_remote_open 1 "queue" ∷ events) small)
supply_example = supply 1 "queue" events small (omega arith) refl refl answers
