-- ===== src/LinkLoader/Batches.antt =====
-- The batches of a cycle of the link loader: one in which each link gets its message, and one in which
-- all are closed.
use dispatch_tester.Common.{
  ◌==◌, if◌then◌else◌, ltb, ◌&&◌, ℕ, String, zero, suc, ◌+◌, ◌-◌, ◌≤◌, ◌<◌, ◌^◌, ◌≡◌, refl, true,
  false, List, [], ◌∷◌, ◌++◌, map, length, All, replicate, count_if, pos, ok, ◌>>=◌, arith,
}
use dispatch_tester.Proton
use dispatch_tester.Proton.Links.{handle_batch}
use dispatch_tester.LinkLoader.{
  Loader, FlowReads, Event, link_flow, link_remote_close, open_links, close_links, start_message,
  count_link, on_flow, next_cycle, on_close, event_handler, batch,
}

pub open_links-others :
    (n : ℕ) (target : String) (calls : List Proton.Call)
    → (count_if Proton.is_link_close (open_links n target calls)
        ≡ count_if Proton.is_link_close calls)
      × (count_if Proton.is_delivery (open_links n target calls)
          ≡ count_if Proton.is_delivery calls)
unfolding open_links
open_links-others zero target calls = (refl, refl)
open_links-others (suc n) target calls =
    (ground (
      arith,
      open_links-others n target
          (Proton.link_open ∷ Proton.set_target target ∷ Proton.sender_new ∷ calls),
    ))

pub open_links-opens :
    (n : ℕ) (target : String) (calls : List Proton.Call)
    → count_if Proton.is_link_open (open_links n target calls)
      ≡ n + count_if Proton.is_link_open calls
unfolding open_links
open_links-opens zero target calls = omega arith
open_links-opens (suc n) target calls =
    (omega (
      arith,
      open_links-opens n target
          (Proton.link_open ∷ Proton.set_target target ∷ Proton.sender_new ∷ calls),
    ))

-- Credit for a link without a message, while `n` links are locally active, and a library that takes the
-- fragment.
pub record IsGrant (n : ℕ) (r : FlowReads) : Type 0 where
  pub idle : r.current ≡ false
  pub some_credit : 0 < r.credit
  pub made : r.made ≡ true
  pub taken : r.rc ≡ pos 16
  pub active : r.active ≡ n

-- A link with credit gets its message.
abbrev pub granted : FlowReads → Loader → Loader
granted r s = count_link r (record s {
  tag = s.tag + 1;
  calls = Proton.link_send 16 ∷ Proton.delivery_new s.tag ∷ s.calls;
})

close_links-opens :
    (n : ℕ) (calls : List Proton.Call)
    → count_if Proton.is_link_open (close_links n calls) ≡ count_if Proton.is_link_open calls
unfolding close_links
close_links-opens zero calls = refl
close_links-opens (suc n) calls = (omega (arith, close_links-opens n (Proton.link_close ∷ calls)))

close_links-messages :
    (n : ℕ) (calls : List Proton.Call)
    → count_if Proton.is_delivery (close_links n calls) ≡ count_if Proton.is_delivery calls
unfolding close_links
close_links-messages zero calls = refl
close_links-messages (suc n) calls =
    (omega (arith, close_links-messages n (Proton.link_close ∷ calls)))

close_links-closes :
    (n : ℕ) (calls : List Proton.Call)
    → count_if Proton.is_link_close (close_links n calls) ≡ n + count_if Proton.is_link_close calls
unfolding close_links
close_links-closes zero calls = omega arith
close_links-closes (suc n) calls = (omega (arith, close_links-closes n (Proton.link_close ∷ calls)))

abbrev pub opened : Loader → ℕ
opened s = count_if Proton.is_link_open s.calls

abbrev pub closed : Loader → ℕ
closed s = count_if Proton.is_link_close s.calls

abbrev pub messages : Loader → ℕ
messages s = count_if Proton.is_delivery s.calls

granted_facts :
    (r : FlowReads) (s : Loader)
    → s.link_limit < 2 ^ 32
    → s.link_count < s.link_limit
    → ((granted r s).link_count ≡ s.link_count + 1)
      × ((granted r s).link_limit ≡ s.link_limit)
      × ((granted r s).repeat_count ≡ s.repeat_count)
      × ((granted r s).stop ≡ s.stop)
      × (opened (granted r s) ≡ opened s)
      × (closed (granted r s)
          ≡ (if s.link_count + 1 == s.link_limit then r.active + closed s else closed s))
      × (messages (granted r s) ≡ messages s + 1)
unfolding count_link
granted_facts r s w l =
    (ground (
      arith,
      close_links-messages r.active (Proton.link_send 16 ∷ Proton.delivery_new s.tag ∷ s.calls),
      close_links-closes r.active (Proton.link_send 16 ∷ Proton.delivery_new s.tag ∷ s.calls),
      close_links-opens r.active (Proton.link_send 16 ∷ Proton.delivery_new s.tag ∷ s.calls),
    ))

on_flow-grant :
    (n : ℕ) (r : FlowReads) (s : Loader)
    → IsGrant n r
    → s.link_count < s.link_limit
    → event_handler (link_flow r) s ≡ ok (false, granted r s)
unfolding event_handler on_flow start_message
on_flow-grant n r s g l = ground arith

abbrev pub filled : List FlowReads → Loader → Loader
filled [] s = s
filled (r ∷ rs) s = filled rs (granted r s)

-- `n` messages were started, and the links are closed if that made one for each; what the events of a
-- cycle leave alone.
abbrev pub Fills : ℕ → Loader → Loader → Type 0
Fills n s t =
    (t.link_count ≡ s.link_count + n)
    × (t.link_limit ≡ s.link_limit)
    × (t.repeat_count ≡ s.repeat_count)
    × (t.stop ≡ s.stop)
    × (opened t ≡ opened s)
    × (messages t ≡ messages s + n)
    × (closed t ≡ (
        if ltb 0 n && s.link_count + n == s.link_limit then s.link_limit + closed s else closed s))

pub filled_facts :
    (rs : List FlowReads) (s : Loader)
    → All (IsGrant s.link_limit) rs
    → s.link_limit < 2 ^ 32
    → s.link_count + length rs ≤ s.link_limit
    → Fills (length rs) s (filled rs s)
unfolding count_link
filled_facts [] s g w l = (omega arith, refl, refl, refl, refl, omega arith, refl)
filled_facts (r ∷ rs) s g w l =
    (ground (arith, g.0.active, granted_facts r s w, filled_facts rs (granted r s) g.1))

pub batch-fill :
    (n : ℕ) (rs : List FlowReads) (es : List Event) (s : Loader)
    → All (IsGrant n) rs
    → s.link_limit < 2 ^ 32
    → s.link_count + length rs ≤ s.link_limit
    → batch (map link_flow rs ++ es) s ≡ batch es (filled rs s)
unfolding batch handle_batch
batch-fill n [] es s g w l = refl
batch-fill n (r ∷ rs) es s g w l =
    (ground
      (arith, on_flow-grant n r s g.0, granted_facts r s w, batch-fill n rs es (granted r s) g.1))

abbrev pub freed : Loader → Loader
freed s = record s { link_count = s.link_count - 1; calls = Proton.link_free ∷ s.calls }

abbrev pub emptied : ℕ → Loader → Loader
emptied zero s = s
emptied (suc k) s = emptied k (freed s)

pub emptied_facts :
    (k : ℕ) (s : Loader)
    → k ≤ s.link_count
    → ((emptied k s).link_count ≡ s.link_count - k)
      × ((emptied k s).link_limit ≡ s.link_limit)
      × ((emptied k s).repeat_count ≡ s.repeat_count)
      × ((emptied k s).stop ≡ s.stop)
      × (opened (emptied k s) ≡ opened s)
      × (closed (emptied k s) ≡ closed s)
      × (messages (emptied k s) ≡ messages s)
emptied_facts zero s h = (omega arith, refl, refl, refl, refl, refl, refl)
emptied_facts (suc k) s h = (ground (arith, emptied_facts k (freed s)))

-- The last of the links that are closed starts the next cycle.
batch-drain :
    (k : ℕ) (s : Loader)
    → s.link_count ≡ suc k
    → batch (replicate (suc k) (link_remote_close true)) s
      ≡ (next_cycle (emptied (suc k) s) >>= λ t. ok (false, t))
unfolding batch event_handler on_close handle_batch
batch-drain zero s h = ground arith
batch-drain (suc k) s h = (ground (arith, batch-drain k (freed s)))

pub batch-drain_all :
    (n : ℕ) (s : Loader)
    → 0 < n
    → s.link_count ≡ n
    → batch (replicate n (link_remote_close true)) s
      ≡ (next_cycle (emptied n s) >>= λ t. ok (false, t))
batch-drain_all zero s h e = absurd (omega arith)
batch-drain_all (suc k) s h e = batch-drain k s e
