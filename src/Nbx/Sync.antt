-- ===== src/Nbx/Sync.antt =====
-- The call sendrecvMultipleMessagesNBX with unknown senders (VCluster/VCluster_base.hpp): it ends,
-- and what it leaves, also where it is refused.
use openfpm_vcluster.Prelude.{
  ℕ, ◌+◌, ◌%◌, ◌<◌, ◌≡◌, refl, ◌∙◌, true, false, some, List, [], ◌∷◌, ◌++◌, ◌==◌, arith, ◌>>=◌,
}
use openfpm_vcluster.Wire.{Mpi}
use openfpm_vcluster.Tags.{next_cnt}
use openfpm_vcluster.Nbx.State.{
  nbx_unknown, complain, asynchronous_running, Nbx, Outgoing, MsgAlloc, set_slot, log_clear,
}
use openfpm_vcluster.Nbx.Post.{queue_all_sends, enqueue}
use openfpm_vcluster.Nbx.Progress.{Poll}
use openfpm_vcluster.Nbx.Wait.{advance, wait_loop, clear_requests, sync_unknown}
use openfpm_vcluster.Nbx.Opening.{queue_all_sends_keeps}
use openfpm_vcluster.Nbx.Completion.{Enough, wait_loop-ends, wait_loop-SameExchange}

module _ {U : Type 0} where
  pub advance-pos :
      (s : Nbx U)
      → 0 < s.nbx_cycle
      → advance s ≡ some (record s { nbx_cnt = (s.nbx_cnt + 1) % s.nbx_cycle })
  unfolding advance next_cnt
  advance-pos s h = let e : (s.nbx_cycle == 0) ≡ false = ground arith in rw e

  -- The state from which the synchronous call polls
  unfoldable pub started : List Outgoing → MsgAlloc U → ℕ → Nbx U → Nbx U
  started outs alloc arg s =
      let t = queue_all_sends outs (enqueue s) in
      set_slot 0
        (record (t.slots 0) {
          active = nbx_unknown;
          rid = 0;
          reached_bar_req = false;
          msg_alloc = alloc;
          ptr_arg = arg;
        })
        (record t { cnt_base = t.nbx_cnt })

  started-cnt :
      (outs : List Outgoing) (alloc : MsgAlloc U) (arg : ℕ) (s : Nbx U)
      → ((started outs alloc arg s).nbx_cnt ≡ s.nbx_cnt)
        × ((started outs alloc arg s).nbx_cycle ≡ s.nbx_cycle)
        × (((started outs alloc arg s).slots 0).active ≡ nbx_unknown)
  unfolding started
  started-cnt outs alloc arg s = let k = queue_all_sends_keeps outs (enqueue s) in (k.0, k.1, refl)

  pub sync_unknown-started :
      (m : Mpi) (outs : List Outgoing) (alloc : MsgAlloc U) (arg : ℕ) (ps : List Poll) (s : Nbx U)
      → s.queued ≡ 0
      → sync_unknown m outs alloc arg ps s ≡ (
          wait_loop m 0 ps (started outs alloc arg s) >>= λ r.
          advance (clear_requests r.0) >>= λ w. some (record w { queued = 0 }))
  unfolding sync_unknown started
  sync_unknown-started m outs alloc arg ps s h =
      let e : (s.queued == 0) ≡ true = ground arith in rw e

  -- The state that the call leaves, when its loop ends in `t`
  abbrev pub ended : Nbx U → Nbx U
  ended t =
      let w = clear_requests t in record w { nbx_cnt = (w.nbx_cnt + 1) % w.nbx_cycle; queued = 0 }

  pub sync_unknown-ended :
      (m : Mpi) (outs : List Outgoing) (alloc : MsgAlloc U) (arg : ℕ) (ps : List Poll) (s : Nbx U)
      (r : Nbx U × List Poll)
      → s.queued ≡ 0
      → 0 < s.nbx_cycle
      → wait_loop m 0 ps (started outs alloc arg s) ≡ some r
      → sync_unknown m outs alloc arg ps s ≡ some (ended r.0)
  unfolding clear_requests log_clear
  sync_unknown-ended m outs alloc arg ps s r h c loop =
      let u = started outs alloc arg s in
      let k = started-cnt outs alloc arg s in
      let same = (wait_loop-SameExchange m 0 ps u r loop).0 in
      sync_unknown-started m outs alloc arg ps s h
      ∙ rw loop (rw (advance-pos (clear_requests r.0) (omega (arith, c, k.1, same.cycle))) refl)

  pub sync_unknown-returns :
      (m : Mpi) (outs : List Outgoing) (alloc : MsgAlloc U) (arg : ℕ) {ps : List Poll} (s : Nbx U)
      → s.queued ≡ 0
      → 0 < s.nbx_cycle
      → Enough m 1 ps
      → (t : Nbx U) × (sync_unknown m outs alloc arg ps s ≡ some t)
        × (t.queued ≡ 0)
        × (t.req ≡ [])
        × (t.s_log ≡ [])
        × (t.nbx_cnt ≡ (s.nbx_cnt + 1) % s.nbx_cycle)
        × ((t.slots 0).active ≡ nbx_unknown)
  unfolding clear_requests log_clear
  sync_unknown-returns m outs alloc arg {ps} s h c e =
      let u = started outs alloc arg s in
      let k = started-cnt outs alloc arg s in
      let (r, loop, _) = wait_loop-ends m 0 0 u (omega arith) k.2 e in
      let same = (wait_loop-SameExchange m 0 ps u r loop).0 in
      (
        ended r.0,
        sync_unknown-ended m outs alloc arg ps s r h c loop,
        refl,
        refl,
        refl,
        rw (same.cnt, same.cycle, k.0, k.1),
        same.active 0 ∙ k.2,
      )

  -- Made while asynchronous calls are queued, the call complains and sends nothing, but counts
  -- itself as queued: nothing else changes.
  pub sync_unknown_refused :
      (m : Mpi) (outs : List Outgoing) (alloc : MsgAlloc U) (arg : ℕ) (ps : List Poll) (s : Nbx U)
      → 0 < s.queued
      → sync_unknown m outs alloc arg ps s
        ≡ some (record s {
          queued = s.queued + 1;
          calls = s.calls ++ complain asynchronous_running ∷ [];
        })
  unfolding sync_unknown
  sync_unknown_refused m outs alloc arg ps s h =
      let e : (s.queued == 0) ≡ false = ground arith in rw e
