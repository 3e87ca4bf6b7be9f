-- ===== src/Lib.antt =====
-- The load clients of the repository: C programs that send or receive messages through a router with the
-- Qpid Proton library, or octets over TCP, and measure or disturb it.
--
-- The clients share no code, but they are built in the same way: globals with the options and the
-- counters, an event handler that the library's reactor or proactor calls, and a `main` with the option
-- loop and the event loop. Each client is one module here: its globals are a record, the events that its
-- handler knows are a data type, and the handler and its parts are functions on the record. `Main` below
-- a client has its signal handler, its options with their defaults, what it does to connect, and `main`,
-- which runs the client from its command line over the rounds of its event loop.
--
-- - Common: tests on native numbers, lists, machine words, and runs that may end the process.
-- - Proton: what the clients see of the library. A call into the library is recorded in the field
--   `calls`, newest first; what the library and the clock answer is part of an event or a parameter.
--   Proton.Message has the encode loop, Proton.Clock the time differences, Proton.Options the option
--   loop and Proton.Credit the rule for new credit, from benchmarks/clients/src/sender.c and receiver.c.
--   Proton.Address has the host addresses of the clients under skupper-router, and Proton.Links the loops
--   that open links and the loop over the events of a batch. Proton.Program has what the clients under
--   skupper-router do in `main`: an event loop of rounds, each with the signals that came before its batch.
--   Proton.Decimal is a scanner of decimals with which the examples run the options; the clients take
--   sscanf as a parameter.
-- - Sender: benchmarks/clients/src/sender.c, its globals in Sender.State. `generate_message`,
--   `event_handler` and, in Sender.Main, `main`. The branches of the handler are `on_init`, `on_flow` and
--   `on_delivery`.
-- - Receiver: benchmarks/clients/src/receiver.c, with the credit window and the latency statistics.
-- - Benchmark: such a sender and such a receiver with a router between them, in rounds; Benchmark.Sending
--   and Benchmark.Receiving have the two halves of a round.
-- - Latency: benchmarks/clients/src/latency-sender.c and latency-receiver.c, in Latency.Sender and
--   Latency.Receiver, with the statistics that they share. Latency.Pair follows one message,
--   Latency.Exchange a message and its acknowledgement, Latency.Session a whole benchmark.
-- - Server: benchmarks/clients/src/server.c, with the calls on all links in one list; Server.Accounts is
--   about all of them, Server.Window about those of one link.
-- - Clogger: clients/chaos/clogger.c. `start_message`, `send_message_data` and `event_handler`.
-- - LinkLoader: skupper-router/clients/link-loader.c. LinkLoader.Batches and LinkLoader.Cycle let a router
--   answer one cycle of it, LinkLoader.Complete the whole program.
-- - SessionLoader: skupper-router/clients/session-loader.c. SessionLoader.Session lets a router answer one
--   session of it, SessionLoader.Complete the whole program.
-- - OomSender and OomReceiver: skupper-router/oomster/oom-sender.c and oom-receiver.c.
-- - LinkSender and LinkReceiver: skupper-router/clients/amqp_link_scale/link-sender.c and link-receiver.c.
--   LinkScale joins the two by a router.
-- - Bridge: skupper-router/clients/amqp-tcp-bridge.c, with its ring of buffers as a queue of chunks.
--   Bridge.Events has the handlers and the life of a context, Bridge.Main the program with all its
--   contexts, Bridge.Stream the octets that pass through a context, in order.
-- - Scale: clients/scale/src/. Scale.Sender, Scale.Receiver and Scale.Punisher are sender.c, receiver.c and
--   punisher.c, in which `app_data_t` is the state; Scale itself has the encode loop of two of them,
--   and Scale.Session lets a sender and a receiver work together.
-- - Tcp: skupper-router/clients/spout-client.c and drain-server.c. Tcp.Spout has `run_sender`, Tcp.Drain the
--   thread of a connection, both what `main` does with its socket, and Tcp the rates that both report, as
--   fractions.
--
-- Integers: `uint64_t`, `size_t` and `uint32_t` counters wrap around, written as `u64` and `u32`; `int`
-- counters and time stamps are taken to be in range, but for the length of a message that the scale clients
-- keep in an `int`, in `kept_in_int`. The product of frame size and window in the OOM sender is one of
-- 32 bits, its differences are ones of 64. A message tag counts without a bound, and so do the signed sums
-- of latencies.
-- Fuel: the encode loop of the benchmark sender runs on 64 rounds, since each round doubles a buffer that
-- is not empty, and 63 doublings reach any size up to 2^63; that of the scale clients starts at 128 octets
-- and runs on 57. The link receiver's loop over a delivery runs on the octets pending, and the spout
-- client's on the octets left: each round takes one at least. The server's loop over a delivery runs on
-- the octets pending, the latency receiver's on one more, for PN_EOS. All other loops are structural.
--
-- The latency sender keeps the message in its buffer as it was built; that a time stamp can be read in it
-- is a hypothesis on the library's decoder.
--
-- Not modelled: what is printed, the freeing of memory, the names of links, clocks that fail, and the
-- creation of the reactor or the proactor, of which only the call that connects is recorded. Of
-- benchmarks/clients the throughput clients and the chunked, blocking and multi-flow senders are not
-- modelled: they are variants of those that are. The Python programs, scripts and router configurations
-- are in other languages.
pub mod Common
pub mod Proton
pub mod Sender
pub mod Server
pub mod Benchmark
pub mod Latency
pub mod Clogger
pub mod Receiver
pub mod LinkLoader
pub mod Bridge
pub mod SessionLoader
pub mod OomSender
pub mod LinkSender
pub mod LinkReceiver
pub mod LinkScale
pub mod OomReceiver
pub mod Scale
pub mod Tcp
