-- ===== src/OomReceiver/Window.antt =====
-- What the options of the OOM receiver ensure, and where its session window wraps around.
use dispatch_tester.Common.{
  refl, ◌*◌, ◌/◌, ◌≤◌, ◌<◌, ◌^◌, ◌≡◌, String, false, some, List, [], ◌∷◌, count_if, sum_of, u32,
  pos, ok, halt, assert_failed, arith, ◌⊎◌, inl, inr,
}
use native.Mathlib.Decide.{dec_lt}
use dispatch_tester.Proton.Options.{Letter, Scanf, IfSome, IfSome-of, parse-keeps}
use dispatch_tester.Proton
use dispatch_tester.Proton.Links.{open_receivers, open_receivers-counts, handle_batch}
use dispatch_tester.OomReceiver.{
  OomReceiver, connection_bound, window, limit_window, on_bound, event_handler,
}
use dispatch_tester.Proton.Program.{start, event_loop}
use dispatch_tester.OomReceiver.Main.{option, options, defaults, connect, main}

-- The configuration is one that the usage allows.
pub record IsUsable (s : OomReceiver) : Type 0 where
  pub some_links : 0 < s.links
  pub some_credit : 0 < s.credit_window
  pub frame : 512 ≤ s.in_max_frame
  pub frames : 2 ≤ s.per_link_session_frames

option-IsUsable :
    (scanf : Scanf) (c : Letter) (arg : String) (s : OomReceiver)
    → IsUsable s
    → IfSome IsUsable (option scanf c arg s)
unfolding option
option-IsUsable scanf c arg s v = ground arith

pub options-IsUsable :
    (scanf : Scanf) (args : List (Letter × String)) (s t : OomReceiver)
    → IsUsable s
    → options scanf args s ≡ some t
    → IsUsable t
unfolding options
options-IsUsable scanf args s t v e =
    IfSome-of IsUsable (options scanf args s) t
      (parse-keeps IsUsable (option scanf) (option-IsUsable scanf) args s v) e

-- No option makes a call.
options-calls :
    (scanf : Scanf) (args : List (Letter × String)) (s t : OomReceiver)
    → options scanf args s ≡ some t
    → t.calls ≡ s.calls
unfolding options option
options-calls scanf args s t e =
    IfSome-of (λ u. u.calls ≡ s.calls) (options scanf args s) t
      (parse-keeps (λ u. u.calls ≡ s.calls) (option scanf) (λ c arg u h. ground arith) args s refl)
      e

-- The calls before the links are opened.
abbrev before_links : OomReceiver → List Proton.Call
before_links s =
    Proton.session_open
    ∷ Proton.set_window (window s) (window s / 2)
    ∷ Proton.connection_open
    ∷ Proton.set_max_frame s.in_max_frame
    ∷ s.calls

on_bound-cases :
    (s : OomReceiver)
    → IsUsable s
    → s.links < 2 ^ 31
    → count_if Proton.is_link_open s.calls ≡ 0
    → sum_of Proton.credits s.calls ≡ 0
    → ((2 ≤ u32 (s.per_link_session_frames * s.links))
        × ((t : OomReceiver) × (event_handler (connection_bound (pos 0)) s ≡ ok (false, t))
            × (count_if Proton.is_link_open t.calls ≡ s.links)
            × (sum_of Proton.credits t.calls ≡ s.links * s.credit_window)))
      ⊎ ((u32 (s.per_link_session_frames * s.links) < 2)
          × (event_handler (connection_bound (pos 0)) s ≡ halt assert_failed))
unfolding event_handler on_bound limit_window
on_bound-cases s v w opens grants = elim (dec_lt (u32 (s.per_link_session_frames * s.links)) 2) [
  | yes p ↦ inr (p, (ground (arith, v.frames)))
  | no p ↦
      let counts =
        open_receivers-counts s.links s.source_address s.credit_window (before_links s) in
      inl (
        omega arith,
        (
          record s {
            calls = open_receivers s.links s.source_address s.credit_window (before_links s);
          },
          (grind (arith, v.some_links, v.frames, v.frame)),
          (ground (arith, counts, opens, grants)),
          (ground (arith, counts, opens, grants)),
        ),
      )
]

-- With options that are taken and give less than 2^31 links, and a library that sets the session
-- window, `main` of the OOM receiver, when the connection is bound, opens all links, each with a
-- window of credit, if the product of frames and links is at least 2 in 32 bits, and fails an
-- assertion otherwise.
pub oom_receiver-cases :
    (scanf : Scanf) (args : List (Letter × String)) (s : OomReceiver)
    → options scanf args defaults ≡ some s
    → s.links < 2 ^ 31
    → let run =
        main scanf args (record { signal = false; events = connection_bound (pos 0) ∷ [] } ∷ []) in
      ((2 ≤ u32 (s.per_link_session_frames * s.links))
        × ((t : OomReceiver) × (run ≡ ok (false, t))
            × (count_if Proton.is_link_open t.calls ≡ s.links)
            × (sum_of Proton.credits t.calls ≡ s.links * s.credit_window)))
      ⊎ ((u32 (s.per_link_session_frames * s.links) < 2) × (run ≡ halt assert_failed))
unfolding main connect event_loop handle_batch
oom_receiver-cases scanf args s e w =
    let fresh : s.calls ≡ [] = options-calls scanf args defaults s e in
    let usable : IsUsable s =
      options-IsUsable scanf args defaults s
        (record {
          some_links = omega arith;
          some_credit = omega arith;
          frame = omega arith;
          frames = omega arith;
        })
        e in
    let connected : IsUsable (connect s) = record {
      some_links = usable.some_links;
      some_credit = usable.some_credit;
      frame = usable.frame;
      frames = usable.frames;
    } in
    elim (on_bound-cases (connect s) connected w (ground (arith, fresh)) (ground (arith, fresh))) [
      | inl (fits, (t, run, opens, grants)) ↦
          inl (fits, (t, (rw (e, start, run) refl), opens, grants))
      | inr (lost, failed) ↦ inr (lost, (rw (e, start, failed) refl))
    ]
