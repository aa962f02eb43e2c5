-- ===== src/Semantic/Send/Next.antt =====
-- An asynchronous call with unknown receivers: the position of the queue that it takes
-- (VCluster/VCluster_base.hpp: sendrecvMultipleMessagesNBXAsync).
use openfpm_vcluster.Prelude.{ℕ, ◌+◌, ◌<◌, ◌≡◌, ◌≢◌, refl, ap, ◌∙◌, false, some, List}
use openfpm_vcluster.Tags.{nqueue}
use openfpm_vcluster.Nbx.State.{nbx_unknown, Nbx, Outgoing, MsgAlloc}
use openfpm_vcluster.Nbx.Post.{queue_all_sends, enqueue, mark_base, async_unknown}
use openfpm_vcluster.Nbx.Opening.{queue_all_sends_keeps}
use openfpm_vcluster.Nbx.Queue.{placed, placed_at, mark_base_keeps}
use openfpm_vcluster.Semantic.Alloc.Recording.{update_same}
use openfpm_vcluster.Semantic.Alloc.Polling.{update_other}
use openfpm_vcluster.Semantic.Send.Lone.{queue_all_sends_mem, mark_base_mem}

module _ {U : Type 0} where
  -- The call takes the next position of the queue.
  pub record IsNext (alloc : MsgAlloc U) (arg : ℕ) (s n : Nbx U) : Type 0 where
    pub mem : n.mem ≡ s.mem
    pub cnt : n.nbx_cnt ≡ s.nbx_cnt
    pub cycle : n.nbx_cycle ≡ s.nbx_cycle
    pub queued : n.queued ≡ s.queued + 1
    pub here : n.slots s.queued ≡ record (s.slots s.queued) {
      active = nbx_unknown;
      rid = 0;
      reached_bar_req = false;
      msg_alloc = alloc;
      ptr_arg = arg;
    }
    pub others : (j : ℕ) → j ≢ s.queued → n.slots j ≡ s.slots j

  pub async_unknown-IsNext :
      (outs : List Outgoing) (alloc : MsgAlloc U) (arg : ℕ) (s : Nbx U)
      → s.queued < nqueue
      → (n : Nbx U) × (async_unknown outs alloc arg s ≡ some n) × IsNext alloc arg s n
  async_unknown-IsNext outs alloc arg s h =
      let t = queue_all_sends outs (enqueue s) in
      let k = queue_all_sends_keeps outs (enqueue s) in
      let p = placed alloc arg s.queued t in
      let b = mark_base_mem p in
      let c = mark_base_keeps p in
      (
        mark_base p,
        placed_at outs alloc arg s h,
        record {
          mem = b.0 ∙ queue_all_sends_mem outs (enqueue s);
          cnt = c.1 ∙ k.0;
          cycle = b.1 ∙ k.1;
          queued = b.3 ∙ k.2;
          here = ap (λ f. f s.queued) b.2 ∙ update_same t.slots s.queued _ ∙ rw k.3 refl;
          others =
              λ j q. ap (λ f. f j) b.2 ∙ update_other t.slots s.queued _ j q ∙ ap (λ f. f j) k.3;
        },
      )
