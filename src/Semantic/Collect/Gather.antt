-- ===== src/Semantic/Collect/Gather.antt =====
-- SGather at a process that is not the root (VCluster/VCluster.hpp).
use openfpm_vcluster.Prelude.{
  ℕ, ◌<◌, ◌≡◌, refl, ap, ◌∙◌, false, Option, none, some, List, [], ◌∷◌, ◌==◌, append-nil, lt→leb,
}
use openfpm_vcluster.Wire.{Mpi}
use openfpm_vcluster.Tags.{nqueue}
use openfpm_vcluster.Nbx.State.{Nbx}
use openfpm_vcluster.Nbx.Wait.{Answers, sync_unknown}
use openfpm_vcluster.Nbx.Completion.{Enough}
use openfpm_vcluster.Nbx.Sync.{sync_unknown-returns}
use openfpm_vcluster.Semantic.Reorder.{Buffer, Entry}
use openfpm_vcluster.Semantic.Alloc.{Memory, msg_alloc, reset_recv_buf}
use openfpm_vcluster.Semantic.Pack.{Layout, Vector, direct, request_all, pack_all}
use openfpm_vcluster.Semantic.Pack.Sending.{IsVector, outgoing_of, messages-pack_all}
use openfpm_vcluster.Semantic.Pack.Unpack.{Unpacking}
use openfpm_vcluster.Semantic.Send.{Vcluster}
use openfpm_vcluster.Semantic.Collect.{local_info, enter, gather_messages, gather_other, s_gather}

gather_messages-vector :
    (root base : ℕ) (l : Layout) (v : Vector)
    → IsVector l v
    → gather_messages root l (direct l v) base ≡ some (outgoing_of root v.columns)
unfolding gather_messages request_all pack_all
gather_messages-vector root base l v h =
    (messages-pack_all l (root ∷ []) (v ∷ []) (record { base = base; written = [] }) refl (h, tt)).0
    ∙ ap some (append-nil (outgoing_of root v.columns))

module _ (m : Mpi) (rank root prc sz : ℕ) {S : Type 0}
    (unpack : List Buffer → Unpacking S → Option (Unpacking S))
    (sort : List Entry → List Entry) where
  -- The state from which the exchange starts
  abbrev pub gathering : Vcluster → Nbx Memory
  gathering s = record s.nbx {
    mem = enter none s.scnt prc local_info (reset_recv_buf s.scnt s.nbx.mem);
  }

  -- A process that is not the root, with no call queued, sends its vector to the root, a message for
  -- each piece of its memory, and returns, given one round of polling in which the exchange can end
  -- after any rounds whose messages MPI can count: what it had to receive into is unchanged, no
  -- call is queued and no request is left.
  pub s_gather-other :
      (l : Layout) (v : Vector) (base : ℕ) (add : Unpacking S → Unpacking S) (own : ℕ) (a : Answers)
      (u : Unpacking S) (s : Vcluster)
      → (rank == root) ≡ false
      → s.scnt < 4
      → s.nbx.queued ≡ 0
      → 0 < s.nbx.nbx_cycle
      → IsVector l v
      → Enough m 1 a.polls
      → (n : Nbx Memory) × (sync_unknown m
            (outgoing_of root v.columns)
            msg_alloc
            local_info
            a.polls
            (gathering s)
          ≡ some n)
        × (s_gather m rank root prc sz unpack sort l (direct l v) base add own a u s
            ≡ some (record s { nbx = n }, u))
        × (n.queued ≡ 0)
        × (n.req ≡ [])
  unfolding s_gather gather_other
  s_gather-other l v base add own a u s other room queued cycle h e =
      let (n, q, free, reqs, logs, cnt, active) =
        sync_unknown-returns m (outgoing_of root v.columns) msg_alloc local_info (gathering s)
          queued cycle e in
      (
        n,
        q,
        rw (lt→leb nqueue s.scnt room, other, gather_messages-vector root base l v h, q) refl,
        free,
        reqs,
      )
