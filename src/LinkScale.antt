-- ===== src/LinkScale.antt =====
-- A link sender and a link receiver of skupper-router/clients/amqp_link_scale/ with a router between them,
-- which passes the octets on in any pieces and the receiver's disposition back.
mod Examples
use dispatch_tester.Proton
use dispatch_tester.LinkSender.{LinkSender, delivery as disposition}
use dispatch_tester.LinkSender.Main.{batch as send_batch}
use dispatch_tester.LinkReceiver.{LinkReceiver, delivery}
use dispatch_tester.LinkReceiver.Main.{batch as receive_batch}
