-- ===== src/SessionLoader/Session.antt =====
-- One session of the session loader: its links are opened, each sends a fragment, and it is closed by
-- both ends.
use dispatch_tester.Common.{
  ℕ, String, zero, suc, ◌+◌, ◌<◌, ◌^◌, ◌≡◌, refl, true, false, pos, List, [], ◌∷◌, ◌++◌, map,
  length, All, count_if, ok, arith,
}
use dispatch_tester.Proton
use dispatch_tester.Proton.Links.{handle_batch}
use dispatch_tester.SessionLoader.{
  Loader, FlowReads, Event, session_opened, link_flow, session_closed, open_links, start_message,
  count_link, on_flow, on_opened, on_closed, event_handler, batch,
}

-- Credit for a link without a message, and a library that takes the fragment.
pub record IsGrant (r : FlowReads) : Type 0 where
  pub idle : r.current ≡ false
  pub some_credit : 0 < r.credit
  pub made : r.made ≡ true
  pub taken : r.rc ≡ pos 16

abbrev pub links_opened : Loader → ℕ
links_opened s = count_if Proton.is_link_open s.calls

abbrev pub messages : Loader → ℕ
messages s = count_if Proton.is_send s.calls

abbrev pub sessions_opened : Loader → ℕ
sessions_opened s = count_if Proton.is_session_open s.calls

abbrev pub sessions_closed : Loader → ℕ
sessions_closed s = count_if Proton.is_session_close s.calls

-- A link with credit gets its fragment.
abbrev granted : Loader → Loader
granted s = count_link (record s {
  tag = s.tag + 1;
  calls = Proton.link_send 16 ∷ Proton.delivery_new s.tag ∷ s.calls;
})

-- What has changed when `n` links have their fragments and the session was told to close `c` times.
pub record Filled (n c : ℕ) (s t : Loader) : Type 0 where
  pub count : t.link_count ≡ s.link_count + n
  pub limit : t.link_limit ≡ s.link_limit
  pub stop : t.stop ≡ s.stop
  pub session_limit : t.session_limit ≡ s.session_limit
  pub session_count : t.session_count ≡ s.session_count
  pub links : links_opened t ≡ links_opened s
  pub sent : messages t ≡ n + messages s
  pub opened : sessions_opened t ≡ sessions_opened s
  pub closed : sessions_closed t ≡ c + sessions_closed s

granted-more :
    (s : Loader)
    → s.link_limit < 2 ^ 32
    → s.link_count + 1 < s.link_limit
    → Filled 1 0 s (granted s)
unfolding count_link
granted-more s w l = ground arith

granted-last :
    (s : Loader)
    → s.link_limit < 2 ^ 32
    → s.link_count + 1 ≡ s.link_limit
    → Filled 1 1 s (granted s)
unfolding count_link
granted-last s w l = ground arith

on_flow-grant :
    (r : FlowReads) (s : Loader)
    → IsGrant r
    → s.link_count < s.link_limit
    → event_handler (link_flow r) s ≡ ok (false, granted s)
unfolding event_handler on_flow start_message
on_flow-grant r s g l = ground arith

-- The links get their fragments, and with the last the session is told to close.
batch-fill :
    (r : FlowReads) (rs : List FlowReads) (es : List Event) (s : Loader)
    → All IsGrant (r ∷ rs)
    → s.link_limit < 2 ^ 32
    → s.link_count + length (r ∷ rs) ≡ s.link_limit
    → (t : Loader) × (batch (map link_flow (r ∷ rs) ++ es) s ≡ batch es t)
      × Filled (length (r ∷ rs)) 1 s t
unfolding batch handle_batch
batch-fill r [] es s g w l =
    (granted s, (rw (on_flow-grant r s g.0 (omega (arith, l))) refl), granted-last s w l)
batch-fill r (r' ∷ rs) es s g w l =
    let more = granted-more s w (omega (arith, l)) in
    let (t, run, v) =
      batch-fill r' rs es (granted s) g.1 (omega (arith, w, more.limit))
        (omega (arith, l, more.count, more.limit)) in
    (t, (rw (on_flow-grant r s g.0 (omega (arith, l))) run), ground arith)

links_fill :
    (rs : List FlowReads) (es : List Event) (s : Loader)
    → All IsGrant rs
    → s.link_limit < 2 ^ 32
    → 0 < s.link_limit
    → s.link_count + length rs ≡ s.link_limit
    → s.link_count ≡ 0
    → (t : Loader) × (batch (map link_flow rs ++ es) s ≡ batch es t) × Filled (length rs) 1 s t
links_fill [] es s g w l e idle = absurd (omega (arith, l, e, idle))
links_fill (r ∷ rs) es s g w l e idle = batch-fill r rs es s g w e

open_links-counts :
    (n : ℕ) (target : String) (calls : List Proton.Call)
    → let opened = open_links n target calls in
      (count_if Proton.is_link_open opened ≡ n + count_if Proton.is_link_open calls)
      × (count_if Proton.is_send opened ≡ count_if Proton.is_send calls)
      × (count_if Proton.is_session_open opened ≡ count_if Proton.is_session_open calls)
      × (count_if Proton.is_session_close opened ≡ count_if Proton.is_session_close calls)
unfolding open_links
open_links-counts zero target calls = (omega arith, refl, refl, refl)
open_links-counts (suc n) target calls =
    (ground (
      arith,
      open_links-counts n target
          (Proton.link_open ∷ Proton.set_target target ∷ Proton.sender_new ∷ calls),
    ))

-- The events of a session.
abbrev pub session : List FlowReads → List Event
session rs = session_opened true ∷ (map link_flow rs ++ session_closed true ∷ [])

-- What a session leaves, the last one or not.
pub record Passed (s t : Loader) : Type 0 where
  pub limit : t.link_limit ≡ s.link_limit
  pub session_limit : t.session_limit ≡ s.session_limit
  pub session_count : t.session_count ≡ s.session_count + 1
  pub links : links_opened t ≡ s.link_limit + links_opened s
  pub sent : messages t ≡ s.link_limit + messages s
  pub closed : sessions_closed t ≡ 1 + sessions_closed s

module _ (rs : List FlowReads) (s : Loader) (grants : All IsGrant rs) (word : s.link_limit < 2 ^ 32)
    (session_word : s.session_limit < 2 ^ 32) (all : length rs ≡ s.link_limit)
    (some_links : 0 < s.link_limit) (idle : s.link_count ≡ 0) where
  session_fill :
      (t : Loader) × (batch (session rs) s ≡ ok (false, on_closed true t))
      × Filled (length rs) 1 (on_opened true s) t
  unfolding batch handle_batch event_handler on_opened
  session_fill =
      links_fill rs (session_closed true ∷ []) (on_opened true s) grants word some_links
        (omega (arith, idle, all)) idle

  -- A session that is not the last is followed by a new one.
  pub session_repeats :
      s.session_count + 1 < s.session_limit
      → (t : Loader) × (batch (session rs) s ≡ ok (false, t))
        × Passed s t
        × (t.link_count ≡ 0)
        × (sessions_opened t ≡ suc (sessions_opened s))
  unfolding on_opened on_closed
  session_repeats more =
      let (t, run, v) = session_fill in
      let counts = open_links-counts s.link_limit s.target_address s.calls in
      (on_closed true t, run, ground arith, ground arith, ground arith)

  -- The last session stops the client.
  pub session_stops :
      s.session_count + 1 ≡ s.session_limit
      → (t : Loader) × (batch (session rs) s ≡ ok (false, t))
        × Passed s t
        × (t.stop ≡ true)
        × (sessions_opened t ≡ sessions_opened s)
  unfolding on_opened on_closed
  session_stops last =
      let (t, run, v) = session_fill in
      let counts = open_links-counts s.link_limit s.target_address s.calls in
      (on_closed true t, run, ground arith, ground arith, ground arith)
