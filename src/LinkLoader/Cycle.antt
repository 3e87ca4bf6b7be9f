-- ===== src/LinkLoader/Cycle.antt =====
-- The cycles of the link loader.
use dispatch_tester.Common.{
  ℕ, ◌+◌, ◌-◌, ◌<◌, ◌^◌, ◌≡◌, refl, true, false, List, ◌∷◌, ◌++◌, map, length, All, replicate, ok,
  ◌>>=◌, ◌∙◌, arith,
}
use dispatch_tester.Proton
use dispatch_tester.LinkLoader.Batches.{
  IsGrant, opened, closed, messages, open_links-opens, open_links-others, filled, filled_facts,
  batch-fill, emptied, emptied_facts, batch-drain_all,
}
use dispatch_tester.LinkLoader.{
  Loader, FlowReads, Event, link_flow, link_remote_close, open_links, next_cycle, batch,
}

abbrev pub cycle : List FlowReads → ℕ → List Event
cycle rs n = map link_flow rs ++ replicate n (link_remote_close true)

next_cycle-more :
    (s : Loader)
    → 1 < s.repeat_count
    → next_cycle s
      ≡ ok (record s {
        repeat_count = s.repeat_count - 1;
        calls = open_links s.link_limit s.target_address s.calls;
      })
unfolding next_cycle
next_cycle-more s h = ground arith

next_cycle-last :
    (s : Loader)
    → s.repeat_count ≡ 1
    → next_cycle s
      ≡ ok (record s {
        repeat_count = s.repeat_count - 1;
        stop = true;
        calls = Proton.wakeup ∷ s.calls;
      })
unfolding next_cycle
next_cycle-last s h = ground arith

module _ (rs : List FlowReads) (s : Loader) (grants : All (IsGrant s.link_limit) rs)
    (word : s.link_limit < 2 ^ 32) (all : length rs ≡ s.link_limit) (some_links : 0 < s.link_limit)
    (idle : s.link_count ≡ 0) where
  batch-cycle :
      batch (cycle rs s.link_limit) s
      ≡ (next_cycle (emptied s.link_limit (filled rs s)) >>= λ t. ok (false, t))
  batch-cycle =
      batch-fill s.link_limit rs (replicate s.link_limit (link_remote_close true)) s grants word
        (omega arith)
      ∙ batch-drain_all s.link_limit (filled rs s) some_links
          (omega (arith, filled_facts rs s grants word (omega arith)))

  last : Loader
  last = emptied s.link_limit (filled rs s)

  last_facts :
      (last.link_count ≡ 0)
      × (last.link_limit ≡ s.link_limit)
      × (last.repeat_count ≡ s.repeat_count)
      × (last.stop ≡ s.stop)
      × (opened last ≡ opened s)
      × (closed last ≡ s.link_limit + closed s)
      × (messages last ≡ messages s + s.link_limit)
  unfolding last
  last_facts =
      (ground (arith, filled_facts rs s grants word, emptied_facts s.link_limit (filled rs s)))

  -- With a 32-bit limit that is not zero, a full cycle of an idle link loader, where each link
  -- gets credit and its fragment is taken and then all are closed by both ends, returns with the
  -- count of cycles one lower and as many links opened again and does not stop, if more than one
  -- cycle was to go.
  pub cycle_repeats :
      1 < s.repeat_count
      → (t : Loader) × (batch (cycle rs s.link_limit) s ≡ ok (false, t))
        × (t.link_count ≡ 0)
        × (t.link_limit ≡ s.link_limit)
        × (t.repeat_count + 1 ≡ s.repeat_count)
        × (t.stop ≡ s.stop)
        × (opened t ≡ s.link_limit + opened s)
        × (closed t ≡ s.link_limit + closed s)
        × (messages t ≡ s.link_limit + messages s)
  unfolding last
  cycle_repeats more = (
    record last {
      repeat_count = last.repeat_count - 1;
      calls = open_links last.link_limit last.target_address last.calls;
    },
    (ground (arith, batch-cycle, last_facts, next_cycle-more last)),
    (ground (arith, last_facts)),
    (ground (arith, last_facts)),
    (ground (arith, last_facts)),
    (ground (arith, last_facts)),
    (ground (arith, last_facts, open_links-opens last.link_limit last.target_address last.calls)),
    (ground (arith, last_facts, open_links-others last.link_limit last.target_address last.calls)),
    (ground (arith, last_facts, open_links-others last.link_limit last.target_address last.calls)),
  )

  -- With a 32-bit limit that is not zero, the last full cycle of an idle link loader, where each
  -- link gets credit and its fragment is taken and then all are closed by both ends, returns with
  -- the client stopped and no cycle left, and opens nothing.
  pub cycle_stops :
      s.repeat_count ≡ 1
      → (t : Loader) × (batch (cycle rs s.link_limit) s ≡ ok (false, t))
        × (t.repeat_count ≡ 0)
        × (t.stop ≡ true)
        × (opened t ≡ opened s)
        × (closed t ≡ s.link_limit + closed s)
        × (messages t ≡ s.link_limit + messages s)
  unfolding last
  cycle_stops one = (
    record last {
      repeat_count = last.repeat_count - 1;
      stop = true;
      calls = Proton.wakeup ∷ last.calls;
    },
    (ground (arith, batch-cycle, last_facts, next_cycle-last last)),
    (ground (arith, last_facts)),
    refl,
    (ground (arith, last_facts)),
    (ground (arith, last_facts)),
    (ground (arith, last_facts)),
  )
