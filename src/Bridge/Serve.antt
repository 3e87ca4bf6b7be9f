-- ===== src/Bridge/Serve.antt =====
-- All contexts of the bridge, in a run of the whole program.
use dispatch_tester.Common.{
  Bool, true, false, ℕ, String, Option, none, some, List, [], ◌∷◌, store, Run, ok, ◌>>=◌, Ends,
  Ends-bind, arith,
}
use dispatch_tester.Proton.Options.{Letter, IfSome}
use dispatch_tester.Proton.Program.{start-Ends}
use dispatch_tester.Bridge.{Context}
use dispatch_tester.Bridge.Events.{Bridge, Event, life, on_accept, options}
use dispatch_tester.Bridge.Lifetime.{Kept, life_from}
use dispatch_tester.Bridge.Main.{
  Contexts, ListenerEvent, listener_open, listener_close, listener_accept, listener_other, Batch,
  amqp_batch, raw_batch, listener_batch, proactor_batch, listener_event_handler, accept_all,
  on_context, on_batch, Wait, serve, defaults, main,
}

-- Each context that is not freed has its slots in range and at least one connection.
abbrev pub AllKept : Contexts → Type 0
AllKept f = (k : ℕ) → Kept (f k)

store-AllKept :
    (f : Contexts) (k : ℕ) (o : Option Context) → Kept o → AllKept f → AllKept (store f k o)
store-AllKept f k o h v i = (ground (arith, v i))

on_accept-Kept : Kept (some on_accept)
unfolding on_accept
on_accept-Kept = ground arith

accept_all-AllKept :
    (es : List ListenerEvent) (f : Contexts) → AllKept f → AllKept (accept_all es f)
unfolding accept_all listener_event_handler
accept_all-AllKept [] f v = v
accept_all-AllKept (listener_accept k ∷ es) f v =
    accept_all-AllKept es (store f k (some on_accept))
      (store-AllKept f k (some on_accept) on_accept-Kept v)
accept_all-AllKept (listener_open ∷ es) f v = accept_all-AllKept es f v
accept_all-AllKept (listener_close ∷ es) f v = accept_all-AllKept es f v
accept_all-AllKept (listener_other ∷ es) f v = accept_all-AllKept es f v

on_some-AllKept :
    (k : ℕ) (es : List Event) (f : Contexts) (o : Option Context)
    → Kept o
    → AllKept f
    → Ends AllKept (elim o [ none ↦ ok f | some s ↦ life es s >>= λ p. ok (store f k p) ])
on_some-AllKept k es f none h v = v
on_some-AllKept k es f (some s) h v =
    Ends-bind Kept AllKept (life es s) _ (life_from es s h) (λ p w. store-AllKept f k p w v)

on_context-AllKept :
    (k : ℕ) (es : List Event) (f : Contexts) → AllKept f → Ends AllKept (on_context k es f)
unfolding on_context
on_context-AllKept k es f v = on_some-AllKept k es f (f k) (v k) v

on_batch-AllKept : (b : Batch) (f : Contexts) → AllKept f → Ends AllKept (on_batch b f)
unfolding on_batch
on_batch-AllKept (amqp_batch k es) f v = on_context-AllKept k _ f v
on_batch-AllKept (raw_batch k es) f v = on_context-AllKept k _ f v
on_batch-AllKept (listener_batch es) f v = accept_all-AllKept es f v
on_batch-AllKept proactor_batch f v = v

leave :
    (stop : Bool) (g : Contexts) (rest : Run (Bool × Contexts))
    → AllKept g
    → Ends (λ (r : Bool × Contexts). AllKept r.1) rest
    → Ends (λ (r : Bool × Contexts). AllKept r.1) (elim stop [ true ↦ ok (true, g) | false ↦ rest ])
leave true g rest v h = v
leave false g rest v h = h

serve-AllKept :
    (ws : List Wait) (b : Bridge) (f : Contexts)
    → AllKept f
    → Ends (λ (r : Bool × Contexts). AllKept r.1) (serve ws b f)
unfolding serve
serve-AllKept [] b f v = v
serve-AllKept (w ∷ ws) b f v =
    Ends-bind AllKept (λ (r : Bool × Contexts). AllKept r.1) (on_batch w.batch f) _
      (on_batch-AllKept w.batch f v) (λ g h. leave _ g (serve ws _ g) h (serve-AllKept ws _ g h))

any_options : (o : Option Bridge) → IfSome (λ b. Unit) o
any_options none = tt
any_options (some b) = tt

-- In every run of `main` of the bridge, whatever the command line, the connections accepted and
-- the events and signals that come in, every context that is not freed has its slots in range and
-- at least one of its two connections, unless the process has ended.
pub bridge-AllKept :
    (args : List (Letter × String)) (waits : List Wait)
    → Ends (λ (r : Bool × Contexts). AllKept r.1) (main args waits)
unfolding main
bridge-AllKept args waits =
    start-Ends (λ b. Unit) (λ (r : Bool × Contexts). AllKept r.1) (options args defaults) _
      (any_options (options args defaults)) (λ b h. serve-AllKept waits b (λ k. none) (λ k. tt))
