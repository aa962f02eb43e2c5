-- ===== src/Nbx/Opening.antt =====
-- What queue_all_sends does, by what was under way before it (VCluster/VCluster_base.hpp).
use openfpm_vcluster.Prelude.{
  ◌-◌, ◌^◌, ◌≤◌, ◌<◌, ◌≡◌, ◌⊎◌, refl, ap, ◌∙◌, false, ◌&&◌, ◌||◌, not, List, [], ◌∷◌, ◌++◌, ◌==◌,
  if◌then◌else◌, inl, inr, arith, append_assoc,
}
use openfpm_vcluster.Nbx.State.{Outgoing, complain, requests_in_progress, Nbx, note}
use openfpm_vcluster.Nbx.Post.{queue_sends, queue_all_sends, is_empty}
use openfpm_vcluster.Nbx.Posting.{
  sparse_calls, with_posted, queue_sends-with_posted, queue_sends-SameQueue,
}

module _ {U : Type 0} where
  -- The state that queue_all_sends starts its loop from
  pub opened : Nbx U → Nbx U
  opened s =
      let busy = not (s.stat == 0) || (not (is_empty s.req) && (s.queued == 1)) in
      let warned = if busy then note (complain requests_in_progress) s else s in
      if s.queued == 1 then record warned { stat = 0; req = [] } else warned

  pub queue_all_sends-opened :
      (outs : List Outgoing) (s : Nbx U) → queue_all_sends outs s ≡ queue_sends 0 outs (opened s)
  unfolding queue_all_sends opened
  queue_all_sends-opened outs s = refl

  -- Nothing is under way that a new call would complain of or drop.
  abbrev pub IsQuiet : Nbx U → Type 0
  IsQuiet s = (s.stat ≡ 0) × ((s.req ≡ []) ⊎ (2 ≤ s.queued))

  opened_empty : (s : Nbx U) → s.stat ≡ 0 → s.req ≡ [] → opened s ≡ s
  unfolding opened
  opened_empty s h e = ground arith

  opened_later : (s : Nbx U) → s.stat ≡ 0 → 2 ≤ s.queued → opened s ≡ s
  unfolding opened
  opened_later s h l = ground arith

  pub opened_quiet : (s : Nbx U) → IsQuiet s → opened s ≡ s
  opened_quiet s (h, inl e) = opened_empty s h e
  opened_quiet s (h, inr l) = opened_later s h l

  -- What queue_all_sends does where nothing is under way: it posts one MPI_Issend for each message
  -- that is not empty, in the caller's order, to the message's process, under the tag of its place
  -- in the caller's arrays and with the size of its buffer; it logs the destinations and adds the
  -- bytes to the statistics; all else is unchanged.
  pub queue_all_sends-with_posted :
      (outs : List Outgoing) (s : Nbx U)
      → IsQuiet s
      → s.tot_sent < 2 ^ 64
      → queue_all_sends outs s ≡ with_posted s.nbx_cnt (s.queued - 1) 0 outs s
  queue_all_sends-with_posted outs s q h =
      queue_all_sends-opened outs s
      ∙ ap (queue_sends 0 outs) (opened_quiet s q)
      ∙ queue_sends-with_posted 0 outs s h

  opened_keeps :
      (s : Nbx U)
      → ((opened s).nbx_cnt ≡ s.nbx_cnt)
        × ((opened s).nbx_cycle ≡ s.nbx_cycle)
        × ((opened s).queued ≡ s.queued)
        × ((opened s).slots ≡ s.slots)
  unfolding opened
  opened_keeps s = (ground arith, ground arith, ground arith, ground arith)

  pub queue_all_sends_keeps :
      (outs : List Outgoing) (s : Nbx U)
      → ((queue_all_sends outs s).nbx_cnt ≡ s.nbx_cnt)
        × ((queue_all_sends outs s).nbx_cycle ≡ s.nbx_cycle)
        × ((queue_all_sends outs s).queued ≡ s.queued)
        × ((queue_all_sends outs s).slots ≡ s.slots)
  queue_all_sends_keeps outs s =
      let f = queue_sends-SameQueue 0 outs (opened s) in
      let k = opened_keeps s in
      rw (queue_all_sends-opened outs s) (f.cnt ∙ k.0, f.cycle ∙ k.1, f.queued ∙ k.2, f.slots ∙ k.3)

  pub opened_mem : (s : Nbx U) → (opened s).mem ≡ s.mem
  unfolding opened
  opened_mem s = ground arith

  -- The state after the complaint
  abbrev complained : Nbx U → Nbx U
  complained s = record s {
    stat = 0;
    req = [];
    calls = s.calls ++ complain requests_in_progress ∷ [];
  }

  opened_busy : (s : Nbx U) → s.queued ≡ 1 → is_empty s.req ≡ false → opened s ≡ complained s
  unfolding opened
  opened_busy s q b = ground arith

  busy_posted :
      (outs : List Outgoing) (s : Nbx U)
      → s.queued ≡ 1
      → is_empty s.req ≡ false
      → s.tot_sent < 2 ^ 64
      → queue_all_sends outs s ≡ with_posted s.nbx_cnt (s.queued - 1) 0 outs (complained s)
  busy_posted outs s q b h =
      queue_all_sends-opened outs s
      ∙ ap (queue_sends 0 outs) (opened_busy s q b)
      ∙ queue_sends-with_posted 0 outs (complained s) h

  -- Where a request is still under way when the first call of a queue is made, queue_all_sends
  -- complains, and drops the requests that were under way: only its own are left to wait for.
  pub queue_all_sends_drops :
      (outs : List Outgoing) (s : Nbx U)
      → s.queued ≡ 1
      → is_empty s.req ≡ false
      → s.tot_sent < 2 ^ 64
      → ((queue_all_sends outs s).req ≡ sparse_calls s.nbx_cnt 0 0 outs)
        × ((queue_all_sends outs s).calls
            ≡ s.calls ++ complain requests_in_progress ∷ sparse_calls s.nbx_cnt 0 0 outs)
  queue_all_sends_drops outs s q b h =
      let zero_th : s.queued - 1 ≡ 0 = omega arith in
      rw (busy_posted outs s q b h, zero_th) (refl, append_assoc s.calls _ _)
