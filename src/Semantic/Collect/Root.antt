-- ===== src/Semantic/Collect/Root.antt =====
-- SGather at the root (VCluster/VCluster.hpp).
use mathlib.Core.List.{Pairwise, Perm}
use openfpm_vcluster.Prelude.{
  ℕ, ◌≡◌, refl, true, false, Option, none, some, List, [], ◌∷◌, ◌++◌, ◌==◌, update, leb, arith,
}
use openfpm_vcluster.Wire.{Mpi}
use openfpm_vcluster.Nbx.State.{Nbx, log_clear}
use openfpm_vcluster.Nbx.Progress.{Poll}
use openfpm_vcluster.Nbx.Wait.{Answers, sync_unknown, clear_requests}
use openfpm_vcluster.Nbx.Completion.{Enough, wait_loop-ends}
use openfpm_vcluster.Nbx.Sync.{ended, sync_unknown-ended}
use openfpm_vcluster.Semantic.Reorder.{Buffer, Entry}
use openfpm_vcluster.Semantic.Reorder.Order.{
  IsSort, Arrival, NotAfter, bufs_of, procs_of, sizes_of, reordered,
}
use openfpm_vcluster.Semantic.Alloc.{Memory, msg_alloc, received_into}
use openfpm_vcluster.Semantic.Alloc.Hearing.{heard_all}
use openfpm_vcluster.Tags.{nqueue}
use openfpm_vcluster.Semantic.Delivery.{reorder_slot}
use openfpm_vcluster.Semantic.Delivery.Contents.{carrying}
use openfpm_vcluster.Semantic.Delivery.Arrived.{wait_loop-Arrived}
use openfpm_vcluster.Semantic.Pack.{Layout, Sendable}
use openfpm_vcluster.Semantic.Pack.Unpack.{Unpacking}
use openfpm_vcluster.Semantic.Send.{Vcluster}
use openfpm_vcluster.Semantic.Send.Starting.{IsIdle}
use openfpm_vcluster.Semantic.Collect.{local_info, values, gather_root, s_gather}
use openfpm_vcluster.Semantic.Collect.Start.{
  collecting, polling, root_info, polling_in_use, polling-info, polling-Received,
}

module _ (m : Mpi) (rank root prc sz : ℕ) {S : Type 0}
    (unpack : List Buffer → Unpacking S → Option (Unpacking S)) (sort : List Entry → List Entry)
    (good : IsSort sort) where
  -- The state when the root has added its own object, of `own` elements, to the messages `bs`; `sizes`
  -- is what the unpacking left of the caller's `sz`.
  abbrev pub gathered : ℕ → Answers → List Arrival → List ℕ → Nbx Memory → Vcluster → Vcluster
  gathered own a bs sizes n s =
      let x = received_into a.contents n.mem in
      let mem : Memory = record x {
        recv_buf = update x.recv_buf s.pcnt (bufs_of bs);
        prc = update x.prc prc (procs_of bs ++ root ∷ []);
        sz = update x.sz sz (sizes ++ own ∷ []);
      } in
      record s { nbx = record n { mem = mem } }

  gathered_eq :
      (l : Layout) (x : Sendable) (base : ℕ) (add : Unpacking S → Unpacking S) (own : ℕ)
      (a : Answers) (u v : Unpacking S) (s : Vcluster) (n : Nbx Memory) (bs : List Arrival)
      → (rank == root) ≡ true
      → s.scnt ≡ 0
      → s.pcnt ≡ 0
      → sync_unknown m [] msg_alloc local_info a.polls (collecting prc sz s) ≡ some n
      → reorder_slot sort 0 (root_info prc sz) (received_into a.contents n.mem)
        ≡ some (reordered bs)
      → unpack (bufs_of bs) (record u { sz = some (sizes_of bs); sz_byte = none }) ≡ some v
      → s_gather m rank root prc sz unpack sort l x base add own a u s
        ≡ some (gathered own a bs (values v.sz) n s, add v)
  unfolding s_gather gather_root
  gathered_eq l x base add own a u v s n bs own_rank e f sync order unpacked =
      let room : leb nqueue s.scnt ≡ false = ground arith in
      rw (room, own_rank) (rw sync (rw (f, e, order) (rw unpacked refl)))

  -- SGather at the root, where no call is outstanding, with nothing in the caller's `prc` and `sz`
  -- and an unpacking that always ends: it returns, given one round of polling in which the exchange
  -- can end after any rounds whose messages MPI can count. What was unpacked are exactly the messages
  -- that MPI's answers showed up to a round that found the barrier complete, with the bytes that MPI
  -- wrote, in the order of their senders and tags; the root's own object is added behind them, its rank behind the senders
  -- in `prc`, and its number of elements behind theirs in `sz`; no call is queued.
  pub s_gather-root :
      (l : Layout) (x : Sendable) (base : ℕ) (add : Unpacking S → Unpacking S) (own : ℕ)
      (a : Answers) (u : Unpacking S) (s : Vcluster)
      → (rank == root) ≡ true
      → IsIdle s
      → s.nbx.mem.prc prc ≡ []
      → s.nbx.mem.sz sz ≡ []
      → Enough m 1 a.polls
      → ((bufs : List Buffer) (w : Unpacking S) → (v : Unpacking S) × (unpack bufs w ≡ some v))
      → (n : Nbx Memory) × (bs : List Arrival) × (v : Unpacking S) × (rounds : List Poll)
        × (last : Poll) × (rest : List Poll) × (s_gather m rank root prc sz unpack sort l x base add
              own a u s
            ≡ some (gathered own a bs (values v.sz) n s, add v))
        × (unpack (bufs_of bs) (record u { sz = some (sizes_of bs); sz_byte = none }) ≡ some v)
        × Perm bs (carrying (a.contents 0) (heard_all m (rounds ++ last ∷ []) (polling prc sz s) 0))
        × (a.polls ≡ rounds ++ last ∷ rest)
        × (last.barrier_done ≡ true)
        × Pairwise NotAfter bs
        × (n.queued ≡ 0)
  unfolding clear_requests log_clear
  s_gather-root l x base add own a u s own_rank h e f enough total =
      let (r, loop, left) =
        wait_loop-ends m 0 0 (polling prc sz s) (omega arith) (polling_in_use prc sz s) enough in
      let c =
        wait_loop-Arrived m sort good a (polling prc sz s) r (root_info prc sz)
          (polling_in_use prc sz s) (polling-info prc sz s h.scnt) (polling-Received prc sz s h e f)
          loop in
      let sync =
        sync_unknown-ended m [] msg_alloc local_info a.polls (collecting prc sz s) r h.queued
          h.cycle loop in
      let (v, unpacked) =
        total (bufs_of c.bs) (record u { sz = some (sizes_of c.bs); sz_byte = none }) in
      (
        ended r.0,
        c.bs,
        v,
        c.rounds,
        c.last,
        r.1,
        gathered_eq l x base add own a u v s (ended r.0) c.bs own_rank h.scnt h.pcnt sync c.arranges
            unpacked,
        unpacked,
        c.came,
        c.consumed,
        c.barrier,
        c.sorted,
        refl,
      )
