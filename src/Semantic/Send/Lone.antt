-- ===== src/Semantic/Send/Lone.antt =====
-- An exchange that is the only one in the queue (VCluster/VCluster_base.hpp): what the asynchronous
-- call puts there, and what the wait for it leaves.
use openfpm_vcluster.Prelude.{
  ℕ, zero, suc, ◌+◌, ◌%◌, ◌<◌, ◌≡◌, refl, ap, ◌∙◌, true, false, some, List, [], ◌∷◌, ◌==◌,
  Bool-cases, inl, inr, arith,
}
use openfpm_vcluster.Wire.{Mpi}
use openfpm_vcluster.Nbx.State.{
  nbx_unactive, nbx_unknown, Nbx, Outgoing, MsgAlloc, set_active, log_send, log_clear,
}
use openfpm_vcluster.Nbx.Post.{
  queue_send, queue_sends, queue_all_sends, enqueue, mark_base, async_unknown,
}
use openfpm_vcluster.Nbx.Progress.{Poll}
use openfpm_vcluster.Nbx.Opening.{opened, queue_all_sends-opened, queue_all_sends_keeps, opened_mem}
use openfpm_vcluster.Nbx.Queue.{placed, placed_at}
use openfpm_vcluster.Nbx.Wait.{
  Answers, clear_requests, finish_unknown, wait_loop, wait_slot, wait_slots, nbx_wait,
}
use openfpm_vcluster.Nbx.Completion.{wait_loop-SameExchange}
use openfpm_vcluster.Nbx.Sync.{advance-pos}

module _ {U : Type 0} where
  queue_send_mem : (i : ℕ) (o : Outgoing) (s : Nbx U) → (queue_send i o s).mem ≡ s.mem
  unfolding queue_send log_send
  queue_send_mem i o s = ground arith

  queue_sends_mem : (i : ℕ) (outs : List Outgoing) (s : Nbx U) → (queue_sends i outs s).mem ≡ s.mem
  unfolding queue_sends
  queue_sends_mem i [] s = refl
  queue_sends_mem i (o ∷ os) s =
      queue_sends_mem (i + 1) os (queue_send i o s) ∙ queue_send_mem i o s

  pub queue_all_sends_mem :
      (outs : List Outgoing) (s : Nbx U) → (queue_all_sends outs s).mem ≡ s.mem
  queue_all_sends_mem outs s =
      ap (λ x. x.mem) (queue_all_sends-opened outs s)
      ∙ queue_sends_mem 0 outs (opened s)
      ∙ opened_mem s

  -- The call is the only one in the queue.
  pub record IsLone (alloc : MsgAlloc U) (arg : ℕ) (s n : Nbx U) : Type 0 where
    pub mem : n.mem ≡ s.mem
    pub cycle : n.nbx_cycle ≡ s.nbx_cycle
    pub base : n.cnt_base ≡ s.nbx_cnt
    pub queued : n.queued ≡ 1
    pub active : (n.slots 0).active ≡ nbx_unknown
    pub call_back : (n.slots 0).msg_alloc ≡ alloc
    pub argument : (n.slots 0).ptr_arg ≡ arg
    pub place : (n.slots 0).rid ≡ 0
    pub others : (j : ℕ) → 0 < j → (n.slots j).active ≡ (s.slots j).active

  pub mark_base_mem :
      (t : Nbx U)
      → ((mark_base t).mem ≡ t.mem)
        × ((mark_base t).nbx_cycle ≡ t.nbx_cycle)
        × ((mark_base t).slots ≡ t.slots)
        × ((mark_base t).queued ≡ t.queued)
        × (t.queued ≡ 1 → (mark_base t).cnt_base ≡ t.nbx_cnt)
  unfolding mark_base
  mark_base_mem t = (ground arith, ground arith, ground arith, ground arith, λ e. ground arith)

  pub async_unknown-IsLone :
      (outs : List Outgoing) (alloc : MsgAlloc U) (arg : ℕ) (s : Nbx U)
      → s.queued ≡ 0
      → (n : Nbx U) × (async_unknown outs alloc arg s ≡ some n) × IsLone alloc arg s n
  async_unknown-IsLone outs alloc arg s h =
      let t = queue_all_sends outs (enqueue s) in
      let k = queue_all_sends_keeps outs (enqueue s) in
      let p = placed alloc arg s.queued t in
      let b = mark_base_mem p in
      let first : (0 == s.queued) ≡ true = ground arith in
      (
        mark_base p,
        placed_at outs alloc arg s (omega arith),
        record {
          mem = b.0 ∙ queue_all_sends_mem outs (enqueue s);
          cycle = b.1 ∙ k.1;
          base = b.4 (k.2 ∙ ap (λ x. x + 1) h) ∙ k.0;
          queued = b.3 ∙ k.2 ∙ ap (λ x. x + 1) h;
          active = rw (b.2, first) refl;
          call_back = rw (b.2, first) refl;
          argument = rw (b.2, first) refl;
          place = rw (b.2, first) refl;
          others = λ j l.
              let later : (j == s.queued) ≡ false = ground arith in
              rw (b.2, later) (ap (λ f. (f j).active) k.3);
        },
      )

  -- Positions that are not in use have nothing to wait for.
  pub wait_slots-unactive :
      (m : Mpi) (n j : ℕ) (a : Answers) (s : Nbx U)
      → 0 < j
      → ((k : ℕ) → 0 < k → (s.slots k).active ≡ nbx_unactive)
      → wait_slots m n j a s ≡ some s
  unfolding wait_slots wait_slot
  wait_slots-unactive m zero j a s l h = refl
  wait_slots-unactive m (suc n) j a s l h =
      rw (h j l, wait_slot) (wait_slots-unactive m n (j + 1) a s (omega arith) h)

  wait_slot-lone :
      (m : Mpi) (a : Answers) (s : Nbx U) (r : Nbx U × List Poll)
      → 0 < s.nbx_cycle
      → (s.slots 0).active ≡ nbx_unknown
      → wait_loop m 0 a.polls s ≡ some r
      → let w = clear_requests r.0 in
        wait_slot m 0 a s
        ≡ some
            (set_active 0 nbx_unactive (record w { nbx_cnt = (w.nbx_cnt + 1) % w.nbx_cycle }), r.1)
  unfolding wait_slot finish_unknown clear_requests log_clear
  wait_slot-lone m a s r c e loop =
      let same = (wait_loop-SameExchange m 0 a.polls s r loop).0 in
      rw (e, wait_slot)
        (rw loop (rw (advance-pos (clear_requests r.0) (omega (arith, c, same.cycle))) refl))

  pub nbx_wait-lone :
      (m : Mpi) (a : Answers) (s : Nbx U) (r : Nbx U × List Poll)
      → 0 < s.nbx_cycle
      → (s.slots 0).active ≡ nbx_unknown
      → ((j : ℕ) → 0 < j → (s.slots j).active ≡ nbx_unactive)
      → wait_loop m 0 a.polls s ≡ some r
      → (t : Nbx U) × (nbx_wait m a s ≡ some t)
        × (t.mem ≡ r.0.mem)
        × (t.queued ≡ 0)
        × (t.nbx_cycle ≡ s.nbx_cycle)
        × ((j : ℕ) → (t.slots j).active ≡ nbx_unactive)
  unfolding nbx_wait wait_slots clear_requests log_clear
  nbx_wait-lone m a s r c e h loop =
      let same = (wait_loop-SameExchange m 0 a.polls s r loop).0 in
      let w = clear_requests r.0 in
      let t = set_active 0 nbx_unactive (record w { nbx_cnt = (w.nbx_cnt + 1) % w.nbx_cycle }) in
      let act : (j : ℕ) → (t.slots j).active ≡ nbx_unactive = λ j. elim (Bool-cases (j == 0)) [
        | inl b ↦ rw b refl
        | inr b ↦ let l : 0 < j = ground arith in rw b (same.active j ∙ h j l)
      ] in
      (
        record t { queued = 0 },
        rw (wait_slot-lone m a s r c e loop) (
            rw (wait_slots-unactive m 3 1 (record a { polls = r.1 }) t (omega arith) (λ k l. act k))
              refl),
        refl,
        refl,
        same.cycle,
        act,
      )
