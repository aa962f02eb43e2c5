-- ===== src/Semantic/Send/Exchanging.antt =====
-- SSendRecv where no other call is outstanding (VCluster/VCluster.hpp): it returns, with what was
-- received in order, and can be called again.
use mathlib.Core.List.{Pairwise, Perm}
use openfpm_vcluster.Prelude.{
  ℕ, ◌≡◌, refl, sym, ap₂, ◌∙◌, true, false, Option, none, some, List, [], ◌∷◌, ◌++◌, update, arith,
  subst,
}
use openfpm_vcluster.Wire.{Mpi}
use openfpm_vcluster.Nbx.State.{nbx_unactive, Nbx, Outgoing}
use openfpm_vcluster.Nbx.Progress.{Poll}
use openfpm_vcluster.Nbx.Wait.{Answers, nbx_wait}
use openfpm_vcluster.Nbx.Completion.{Enough, wait_loop-ends}
use openfpm_vcluster.Semantic.Reorder.{Buffer, Entry}
use openfpm_vcluster.Semantic.Reorder.Order.{
  IsSort, Arrival, NotAfter, bufs_of, procs_of, sizes_of, reordered,
}
use openfpm_vcluster.Semantic.Alloc.{
  Memory, BaseInfo, set_info, msg_alloc, reset_recv_buf, received_into,
}
use openfpm_vcluster.Semantic.Alloc.Recording.{update_same}
use openfpm_vcluster.Semantic.Alloc.Hearing.{heard_all}
use openfpm_vcluster.Semantic.Delivery.{reorder_slot}
use openfpm_vcluster.Semantic.Delivery.Arrived.{wait_loop-Arrived}
use openfpm_vcluster.Semantic.Delivery.Contents.{carrying}
use openfpm_vcluster.Semantic.Pack.{PackMem}
use openfpm_vcluster.Semantic.Pack.Unpack.{Unpacking}
use openfpm_vcluster.Semantic.Send.{
  Vcluster, Request, has_flag, receive_known, packed_of, fill_and_post, free_mem, reorder_at,
  complete, ssend_recv, with_contents,
}
use openfpm_vcluster.Semantic.Send.Lone.{IsLone, async_unknown-IsLone, nbx_wait-lone}
use openfpm_vcluster.Semantic.Send.Starting.{
  IsIdle, fresh_memory, lone-Received, messages_of, fill_and_post-lone, posted, prepare-lone,
}

-- The vectors after reorder_buffer, at position `j`
abbrev pub arranged : ℕ → ℕ → List Arrival → Memory → Memory
arranged j caller bs m = record m {
  recv_buf = update m.recv_buf j (bufs_of bs);
  prc = update m.prc caller (procs_of bs);
  sz = update m.sz j (sizes_of bs);
}

abbrev pub finished : ℕ → ℕ → List Arrival → Nbx Memory → Vcluster → Vcluster
finished j caller bs w t = record t {
  nbx = record w { mem = arranged j caller bs w.mem };
  mem = update t.mem j none;
}

-- The base_info of position 0
abbrev pub first_info : ℕ → ℕ → BaseInfo
first_info caller opt = record { recv_buf = some 0; prc = caller; sz = 0; tags = 0; opt = opt }

-- reorder_buffer on the vectors of position 0
abbrev pub Arranges : (List Entry → List Entry) → ℕ → List Arrival → Memory → Type 0
Arranges sort caller bs m = reorder_slot sort 0 (first_info caller 0) m ≡ some (reordered bs)

module _ (m : Mpi) (sort : List Entry → List Entry) where
  pub complete-lone :
      {S : Type 0} (unpack : List Buffer → Unpacking S → Option (Unpacking S)) (caller : ℕ)
      (a : Answers) (u v : Unpacking S) (t : Vcluster) (w : Nbx Memory) (bs : List Arrival)
      → t.pcnt ≡ 0
      → (x : PackMem) → t.mem 0 ≡ some x
      → nbx_wait m a t.nbx ≡ some w
      → Arranges sort caller bs (received_into a.contents w.mem)
      → unpack (bufs_of bs) u ≡ some v
      → complete m sort unpack 0 caller a u t ≡ some (finished 0 caller bs (with_contents a w) t, v)
  unfolding complete reorder_at free_mem
  complete-lone unpack caller a u v t w bs p x h e k q =
      rw e (rw (p, k) (rw (h, free_mem) (rw q refl)))

  module _ (good : IsSort sort) {S : Type 0}
      (unpack : List Buffer → Unpacking S → Option (Unpacking S)) (u : Unpacking S) where
    pub finished-IsIdle :
        (caller : ℕ) (bs : List Arrival) (s t : Vcluster) (w : Nbx Memory)
        → IsIdle s
        → t.scnt ≡ s.scnt
        → t.pcnt ≡ s.pcnt
        → w.queued ≡ 0
        → w.nbx_cycle ≡ s.nbx.nbx_cycle
        → ((j : ℕ) → (w.slots j).active ≡ nbx_unactive)
        → IsIdle (finished 0 caller bs w t)
    finished-IsIdle caller bs s t w h e k q c f = record {
      scnt = e ∙ h.scnt;
      pcnt = k ∙ h.pcnt;
      queued = q;
      cycle = omega (arith, c, h.cycle);
      active = f;
    }

    -- The outcome of a call that ends, whatever it unpacks with: `n` is the process when the exchange
    -- is posted, and `bs` are the messages in the order in which they are unpacked.
    pub record Ended (r : Request) (a : Answers) (s : Vcluster) : Type 0 where
      pub n : Nbx Memory
      pub lone : IsLone msg_alloc 0 (record s.nbx { mem = fresh_memory 0 r s.nbx.mem }) n
      pub posts : fill_and_post r s ≡ some n
      pub rounds : List Poll
      pub last : Poll
      pub rest : List Poll
      pub consumed : a.polls ≡ rounds ++ last ∷ rest
      pub barrier : last.barrier_done ≡ true
      pub bs : List Arrival
      pub came : Perm bs (carrying (a.contents 0) (heard_all m (rounds ++ last ∷ []) n 0))
      pub sorted : Pairwise NotAfter bs
      pub after : Vcluster
      pub senders : after.nbx.mem.prc r.prc_recv ≡ procs_of bs
      pub deleted : after.mem 0 ≡ none
      pub idle : IsIdle after
      pub returns :
          (v : Unpacking S)
          → unpack (bufs_of bs) u ≡ some v
          → ssend_recv m sort unpack r a u s ≡ some (after, v)

    pub ssend_recv-Ended :
        (r : Request) (a : Answers) (s : Vcluster) (outs : List Outgoing)
        → IsIdle s
        → has_flag r.opt receive_known ≡ false
        → r.sz_recv ≡ []
        → messages_of r ≡ some outs
        → Enough m 1 a.polls
        → Ended r a s
    unfolding ssend_recv set_info reset_recv_buf
    ssend_recv-Ended r a s outs h k z e enough =
        let start = record s.nbx { mem = fresh_memory 0 r s.nbx.mem } in
        let (n, async, l) = async_unknown-IsLone outs msg_alloc 0 start h.queued in
        let posts = fill_and_post-lone r s outs h k e ∙ async in
        let made = prepare-lone r s n h posts in
        let (p, loop, left) = wait_loop-ends m 0 0 n (omega arith) l.active enough in
        let c =
          wait_loop-Arrived m sort good a n p (first_info r.prc_recv r.opt) l.active
            (ap₂ (λ (x : Memory) (i : ℕ). x.infos i) l.mem l.argument) (lone-Received r s n h z l)
            loop in
        let (w, wait, mem, queued, cycle, free) =
          nbx_wait-lone m a n p (omega (arith, l.cycle, h.cycle)) l.active
            (λ j b. l.others j b ∙ h.active j) loop in
        let t = posted r s n in
        let x = with_contents a w in
        let placed : t.mem 0 ≡ some (packed_of r) = rw h.scnt refl in
        record {
          n = n;
          lone = l;
          posts = posts;
          rounds = c.rounds;
          last = c.last;
          rest = p.1;
          consumed = c.consumed;
          barrier = c.barrier;
          bs = c.bs;
          came = c.came;
          sorted = c.sorted;
          after = finished 0 r.prc_recv c.bs x t;
          senders = update_same x.mem.prc r.prc_recv (procs_of c.bs);
          deleted = refl;
          idle = finished-IsIdle r.prc_recv c.bs s t x h refl refl queued (cycle ∙ l.cycle) free;
          returns = λ v unpacked.
              let done =
                complete-lone unpack r.prc_recv a u v t w c.bs h.pcnt (packed_of r) placed wait
                  (subst (λ y. Arranges sort r.prc_recv c.bs (received_into a.contents y)) (sym mem)
                    c.arranges)
                  unpacked in
              rw made (
                subst
                  (λ j.
                    complete m sort unpack j r.prc_recv a u t
                    ≡ some (finished 0 r.prc_recv c.bs x t, v))
                  (sym h.scnt) done);
        }

    -- A synchronous call with unknown senders, made where no call is outstanding, with nothing in its
    -- `sz_recv`, an unpacking that always ends, and objects that make messages as they should: it
    -- returns, given one round of polling in which the exchange can end after any rounds whose
    -- messages MPI can count. It takes from MPI's answers the rounds up to one that found the barrier
    -- complete, and what it unpacks are exactly the messages that these rounds showed for the
    -- exchange that the call posted, with the bytes that MPI wrote, in the order of their senders
    -- and tags. The caller's vector then holds their senders, in that order; the memory of the call is
    -- deleted; and no call is outstanding, so that the next one can be made.
    pub ssend_recv-returns :
        (r : Request) (a : Answers) (s : Vcluster) (outs : List Outgoing)
        → IsIdle s
        → has_flag r.opt receive_known ≡ false
        → r.sz_recv ≡ []
        → messages_of r ≡ some outs
        → Enough m 1 a.polls
        → ((bufs : List Buffer) → (v : Unpacking S) × (unpack bufs u ≡ some v))
        → (n : Nbx Memory) × (rounds : List Poll) × (last : Poll) × (rest : List Poll) × (bs : List
            Arrival)
          × (t : Vcluster) × (v : Unpacking S) × (fill_and_post r s ≡ some n)
          × (a.polls ≡ rounds ++ last ∷ rest)
          × (last.barrier_done ≡ true)
          × Perm bs (carrying (a.contents 0) (heard_all m (rounds ++ last ∷ []) n 0))
          × Pairwise NotAfter bs
          × (ssend_recv m sort unpack r a u s ≡ some (t, v))
          × (unpack (bufs_of bs) u ≡ some v)
          × (t.nbx.mem.prc r.prc_recv ≡ procs_of bs)
          × (t.mem 0 ≡ none)
          × IsIdle t
    ssend_recv-returns r a s outs h k z e enough total =
        let x = ssend_recv-Ended r a s outs h k z e enough in
        let (v, unpacked) = total (bufs_of x.bs) in
        (
          x.n,
          x.rounds,
          x.last,
          x.rest,
          x.bs,
          x.after,
          v,
          x.posts,
          x.consumed,
          x.barrier,
          x.came,
          x.sorted,
          x.returns v unpacked,
          unpacked,
          x.senders,
          x.deleted,
          x.idle,
        )
