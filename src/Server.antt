-- ===== src/Server.antt =====
-- benchmarks/clients/src/server.c: a server that answers all of its peers, with messages on the links
-- that they receive from and with dispositions and credit on the links that they send on.
pub mod Main
mod Accounts
mod Window
mod Examples
use dispatch_tester.Common.{
  ℕ, zero, suc, ◌+◌, ◌-◌, ◌/◌, String, Bool, true, false, not, ◌&&◌, if◌then◌else◌, leb, List, [],
  ◌∷◌, u64, ℤ, pos, negsuc, Run, ok, halt, out_of_fuel, ◌>>=◌,
}
use dispatch_tester.Proton.Message.{
  DataCall, put_list, enter, put_binary, leave, Encoded, encode_loop, encode_fuel,
}
use dispatch_tester.Proton

-- A call on a link or on one of its deliveries.
pub record LinkCall : Type 0 where
  pub link : ℕ
  pub call : Proton.Call

-- The globals, and the calls: `link_calls` those on links, `calls` all others, both newest first.
pub record Server : Type 0 where
  pub stop : Bool
  pub server_address : String
  pub container_name : String
  pub presettle : Bool
  pub credit_window : ℕ
  pub rx_count : ℕ
  pub body_size : ℕ
  pub encode_buffer : Bool  -- whether the buffer is allocated
  pub encode_buffer_size : ℕ
  pub encoded_data_size : ℕ
  pub tag : ℕ
  pub calls : List Proton.Call
  pub link_calls : List LinkCall

abbrev pub emit : Proton.Call → Server → Server
emit c s = record s { calls = c ∷ s.calls }

abbrev pub emit_on : ℕ → Proton.Call → Server → Server
emit_on l c s = record s { link_calls = record { link = l; call = c } ∷ s.link_calls }

-- What a PN_DELIVERY finds. `recv` says at a number of pending octets whether `pn_link_recv` answers
-- PN_EOS, and how many octets are pending after it; `credit` is the link's credit in the end.
pub record Delivery : Type 0 where
  pub link : ℕ
  pub readable : Bool
  pub partial : Bool
  pub pending : ℕ
  pub recv : ℕ → Bool × ℕ
  pub credit : ℕ
  pub updated : Bool
  pub state : Proton.Disposition

pub data Event : Type 0 where
  listener_open listener_accept : Event
  connection_init connection_remote_open connection_remote_close : Event
  session_remote_open session_remote_close : Event
  sender_remote_open : ℕ → String → Event  -- with the peer's source
  receiver_remote_open : ℕ → String → Event  -- with the peer's target
  link_remote_close : ℕ → Event
  link_flow : ℕ → ℤ → Event  -- with `pn_link_credit`
  delivery : Delivery → Event
  unhandled : Event

-- The body is a block of zeros.
unfoldable pub body : Server → List DataCall
body s = put_list ∷ enter ∷ put_binary s.body_size ∷ leave ∷ []

-- The size of the buffer, which is allocated at its first use.
abbrev pub buffer_size : Server → ℕ
buffer_size s = if s.encode_buffer then s.encode_buffer_size else s.body_size + 512

abbrev pub keep_encoded : Server → ℕ × ℕ → Run Server
keep_encoded s (buffer, len) =
    ok (record s { encode_buffer = true; encode_buffer_size = buffer; encoded_data_size = len })

unfoldable pub generate_message : (List DataCall → ℕ → Encoded) → Server → Run Server
generate_message encode s =
    encode_loop (encode (body s)) encode_fuel (buffer_size s) >>= keep_encoded s

-- A round of the loop in `link_send`.
unfoldable pub send_one : ℕ → Server → Server
send_one l s =
    let t : Server = record s { tag = s.tag + 1 } in
    let sent : Server = emit_on l Proton.link_advance (
      emit_on l (Proton.link_send t.encoded_data_size) (emit_on l (Proton.delivery_new t.tag) t)) in
    if sent.presettle then emit_on l Proton.delivery_settle sent else sent

-- `while (credit-- > 0)`.
unfoldable pub send_loop : ℕ → ℕ → Server → Server
send_loop l zero s = s
send_loop l (suc credit) s = send_loop l credit (send_one l s)

unfoldable pub link_send : ℕ → ℤ → Server → Server
link_send l (pos credit) s = send_loop l credit s
link_send l (negsuc credit) s = s

-- `while (pn_delivery_pending(dlv) > 0)`. A round that leaves as many octets pending is repeated, so
-- the loop runs on their number; the result is how many are left.
unfoldable pub receive_loop : (ℕ → Bool × ℕ) → ℕ → ℕ → Run ℕ
receive_loop recv fuel zero = ok zero
receive_loop recv zero (suc pending) = halt out_of_fuel
receive_loop recv (suc fuel) (suc pending) = elim (recv (suc pending)).0 [
  | true ↦ ok (suc pending)
  | false ↦ receive_loop recv fuel (recv (suc pending)).1
]

-- A full message has arrived.
unfoldable pub finish : Delivery → Server → Server
finish d s =
    let t : Server =
      emit_on d.link Proton.delivery_settle
        (emit_on d.link (Proton.delivery_update Proton.accepted) s) in
    record t { rx_count = u64 (s.rx_count + 1) }

unfoldable pub grant : Delivery → Server → Server
grant d s =
    if leb d.credit (s.credit_window / 2)
    then emit_on d.link (Proton.link_flow (s.credit_window - d.credit)) s
    else s

unfoldable pub link_receive : Delivery → Server → Run Server
link_receive d s =
    let received : Run Server = receive_loop d.recv d.pending d.pending >>= λ left.
    ok (grant d (if d.partial then s else finish d s)) in
    if d.readable then received else ok s

unfoldable pub delivery_updated : ℕ → Proton.Disposition → Server → Server
delivery_updated l Proton.received s = s
delivery_updated l _ s = emit_on l Proton.delivery_settle s

-- PN_DELIVERY.
unfoldable pub on_delivery : Delivery → Server → Run Server
on_delivery d s =
    let received : Run Server = if d.readable && not d.partial then link_receive d s else ok s in
    received >>= λ t. ok (if d.updated then delivery_updated d.link d.state t else t)

unfoldable pub handle : Event → Server → Run Server
handle listener_open s = ok s
handle listener_accept s = ok (emit Proton.listener_accept s)
handle connection_init s = ok (emit (Proton.set_container s.container_name) s)
handle connection_remote_open s = ok (emit Proton.connection_open s)
handle session_remote_open s = ok (emit Proton.session_open s)
handle (sender_remote_open l source) s =
    ok (emit_on l Proton.link_open (emit_on l (Proton.set_source source) s))
handle (receiver_remote_open l target) s = ok (
    emit_on l Proton.link_open
      (emit_on l (Proton.link_flow s.credit_window) (emit_on l (Proton.set_target target) s)))
handle connection_remote_close s = ok (emit Proton.connection_close s)
handle session_remote_close s = ok (emit Proton.session_free (emit Proton.session_close s))
handle (link_remote_close l) s = ok (emit_on l Proton.link_free (emit_on l Proton.link_close s))
handle (link_flow l credit) s = ok (link_send l credit s)
handle (delivery d) s = on_delivery d s
handle unhandled s = ok s

-- The events of a batch.
unfoldable pub handle_all : List Event → Server → Run Server
handle_all [] s = ok s
handle_all (e ∷ es) s = handle e s >>= handle_all es
