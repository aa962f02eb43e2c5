-- ===== src/Semantic/Collect/Start.antt =====
-- The start of SGather at the root, and of SScatter at a process that is not the root, where no call is
-- outstanding (VCluster/VCluster.hpp): nothing is sent, and the vectors await messages.
use openfpm_vcluster.Prelude.{
  ℕ, ◌+◌, ◌<◌, ◌≡◌, refl, sym, ap, ◌∙◌, false, some, [], ◌==◌, subst, arith,
}
use openfpm_vcluster.Nbx.State.{nbx_unknown, Nbx}
use openfpm_vcluster.Nbx.Post.{enqueue}
use openfpm_vcluster.Nbx.Opening.{queue_all_sends_keeps}
use openfpm_vcluster.Nbx.Sync.{started}
use openfpm_vcluster.Semantic.Alloc.{BaseInfo, Memory, msg_alloc, reset_recv_buf}
use openfpm_vcluster.Semantic.Alloc.Recording.{Records}
use openfpm_vcluster.Semantic.Alloc.Growth.{Received, info_at}
use openfpm_vcluster.Semantic.Send.{Vcluster}
use openfpm_vcluster.Semantic.Send.Lone.{queue_all_sends_mem}
use openfpm_vcluster.Semantic.Send.Starting.{IsIdle, first_only, Received-first}
use openfpm_vcluster.Semantic.Collect.{local_info, enter}

module _ (prc sz : ℕ) where
  -- The state from which the root's exchange starts, and the one from which it polls
  abbrev pub collecting : Vcluster → Nbx Memory
  collecting s = record s.nbx {
    mem = enter (some s.scnt) s.scnt prc sz (reset_recv_buf s.scnt s.nbx.mem);
  }

  abbrev pub polling : Vcluster → Nbx Memory
  polling s = started [] msg_alloc local_info (collecting s)

  abbrev pub root_info : BaseInfo
  root_info = record { recv_buf = some 0; prc = prc; sz = sz; tags = 0; opt = 0 }

  polling-mem : (s : Vcluster) → (polling s).mem ≡ (collecting s).mem
  unfolding started
  polling-mem s = queue_all_sends_mem [] (enqueue (collecting s))

  polling-active :
      (s : Vcluster) (j : ℕ) → 0 < j → ((polling s).slots j).active ≡ (s.nbx.slots j).active
  unfolding started
  polling-active s j h =
      let later : (j == 0) ≡ false = ground arith in
      let k = queue_all_sends_keeps [] (enqueue (collecting s)) in
      rw later (ap (λ f. (f j).active) k.3)

  pub polling-info : (s : Vcluster) → s.scnt ≡ 0 → info_at (polling s) 0 ≡ root_info
  unfolding started enter reset_recv_buf
  polling-info s e =
      ap (λ x. x.infos local_info) (polling-mem s)
      ∙ ap
          (λ (k : ℕ).
            let i : BaseInfo = record {
              recv_buf = some k;
              prc = prc;
              sz = sz;
              tags = k;
              opt = 0;
            } in
            i)
          e

  pub polling-Received :
      (s : Vcluster)
      → IsIdle s
      → s.nbx.mem.prc prc ≡ []
      → s.nbx.mem.sz sz ≡ []
      → Received (λ j. []) (polling s)
  unfolding started enter reset_recv_buf
  polling-Received s h e f =
      let only = first_only (polling s) (λ j k. polling-active s j k ∙ h.active j) in
      let named = polling-info s h.scnt in
      Received-first (polling s) only (ap (λ i. i.recv_buf) named) (record {
        call_back = refl;
        place = refl;
        records =
            subst (λ i. Records (polling s).mem 0 i []) (sym named)
              (subst (λ x. Records x 0 root_info []) (sym (polling-mem s))
                (record {
                  target = refl;
                  bufs = rw h.scnt refl;
                  procs = e;
                  sizes = f;
                  tags = rw h.scnt refl;
                }));
      })

  pub polling_in_use : (s : Vcluster) → ((polling s).slots 0).active ≡ nbx_unknown
  unfolding started
  polling_in_use s = refl

  -- The exchange is the only one in the queue.
  pub polling_queue :
      (s : Vcluster)
      → s.nbx.queued ≡ 0
      → ((polling s).cnt_base ≡ s.nbx.nbx_cnt) × ((polling s).queued ≡ 1)
  unfolding started
  polling_queue s e =
      let k = queue_all_sends_keeps [] (enqueue (collecting s)) in (k.0, k.2 ∙ ap (λ x. x + 1) e)
