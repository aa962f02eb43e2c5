-- ===== src/Semantic/Collect.antt =====
-- SScatter and SGather of Vcluster (VCluster/VCluster.hpp).
pub mod Chunks
pub mod Gather
pub mod Start
pub mod Root
pub mod Receiver
use openfpm_vcluster.Prelude.{
  ℕ, ◌+◌, ◌*◌, ◌%◌, ◌^◌, Option, none, some, List, [], ◌∷◌, ◌++◌, update, leb, ◌==◌, if◌then◌else◌,
  ◌>>=◌,
}
use openfpm_vcluster.Wire.{Mpi}
use openfpm_vcluster.Tags.{nqueue}
use openfpm_vcluster.Nbx.State.{Outgoing}
use openfpm_vcluster.Nbx.Wait.{Answers, sync_unknown}
use openfpm_vcluster.Semantic.Reorder.{Buffer, Entry, reorder_buffer}
use openfpm_vcluster.Semantic.Alloc.{Memory, msg_alloc, reset_recv_buf, received_into}
use openfpm_vcluster.Semantic.Pack.{
  Layout, Sendable, construct_prc, packing_request, packing, messages,
}
use openfpm_vcluster.Semantic.Pack.Unpack.{Unpacking}
use openfpm_vcluster.Semantic.Send.{Vcluster}

-- The loop of SScatter over the sizes of the chunks, from element `ptr` on: the addresses and the
-- bytes of the messages, for elements of `w` bytes and a vector at address `base`.
unfoldable pub scatter_loop : ℕ → ℕ → ℕ → List ℕ → List ℕ × List ℕ → List ℕ × List ℕ
scatter_loop w base ptr [] r = r
scatter_loop w base ptr (n ∷ sz) (send_buf, sz_byte) =
    scatter_loop w base ((ptr + n) % 2 ^ 64) sz
      (send_buf ++ (base + w * ptr) % 2 ^ 64 ∷ [], sz_byte ++ n * w % 2 ^ 64 ∷ [])

-- The base_info of these calls is a local variable, the one of number 4; `target` is `none` where the
-- process is not to receive. `prc` and `sz` are the numbers of the caller's vectors.
abbrev pub local_info : ℕ
local_info = 4

unfoldable pub enter : Option ℕ → ℕ → ℕ → ℕ → Memory → Memory
enter target k prc sz m = record m {
  tags = update m.tags k [];
  infos =
      update m.infos local_info
        (record { recv_buf = target; prc = prc; sz = sz; tags = k; opt = 0 });
}

-- The messages of the root's SScatter
unfoldable pub scatter_messages : ℕ → ℕ → List ℕ → List ℕ → Option (List Outgoing)
unfolding scatter_loop
scatter_messages w base prcs sizes =
    let (send_buf, sz_byte) = scatter_loop w base 0 sizes ([], []) in messages prcs sz_byte send_buf

-- The messages of SGather at a process that is not the root
unfoldable pub gather_messages : ℕ → Layout → Sendable → ℕ → Option (List Outgoing)
gather_messages root l x base =
    let (tot_size, sz) = packing_request x (0, []) in
    let (mem, send_buf) = packing x (record { base = base; written = [] }, []) in
    messages (construct_prc l (root ∷ [])) sz send_buf

abbrev pub values : Option (List ℕ) → List ℕ
values none = []
values (some xs) = xs

-- `rank` is this process, and `prc` and `sz` are the caller's vectors.
module _ (m : Mpi) (rank root prc sz : ℕ) {S : Type 0}
    (unpack : List Buffer → Unpacking S → Option (Unpacking S)) where
  -- SScatter; a process that is not the root sends nothing.
  unfoldable pub s_scatter :
      ℕ → ℕ → Answers → Unpacking S → Vcluster → Option (Vcluster × Unpacking S)
  unfolding enter scatter_messages
  s_scatter w base a u s =
      let k = s.scnt in
      let mem = reset_recv_buf k s.nbx.mem in
      let start = record s.nbx { mem = enter (some k) k prc sz mem } in
      let chunks = scatter_messages w base (mem.prc prc) (mem.sz sz) in
      let outs = if rank == root then chunks else some [] in
      if leb nqueue k
      then none
      else outs >>= λ o. sync_unknown m o msg_alloc local_info a.polls start >>= λ n.
          let received = received_into a.contents n.mem in
          unpack (received.recv_buf s.pcnt) (record u { sz = none; sz_byte = none }) >>= λ v.
          some (record s { nbx = record n { mem = received } }, v)

  module _ (sort : List Entry → List Entry) where
    -- The branch of SGather at the root: it appends its own object, of `own` elements, as the last.
    unfoldable pub gather_root :
        (Unpacking S → Unpacking S)
        → ℕ
        → Answers
        → Unpacking S
        → Vcluster
        → Option (Vcluster × Unpacking S)
    unfolding enter reorder_buffer
    gather_root add own a u s =
        let k = s.scnt in
        let mem = reset_recv_buf k s.nbx.mem in
        let start = record s.nbx { mem = enter (some k) k prc sz mem } in
        sync_unknown m [] msg_alloc local_info a.polls start >>= λ n.
        let received = received_into a.contents n.mem in
        reorder_buffer sort (received.recv_buf s.pcnt) (n.mem.prc prc) (n.mem.tags k) (n.mem.sz sz)
        >>= λ o. unpack o.recv_buf (record u { sz = some o.sz_recv; sz_byte = none }) >>= λ v.
            let t : Memory = record received {
              recv_buf = update received.recv_buf s.pcnt o.recv_buf;
              prc = update n.mem.prc prc (o.prc ++ root ∷ []);
              sz = update n.mem.sz sz (values v.sz ++ own ∷ []);
            } in
            some (record s { nbx = record n { mem = t } }, add v)

    -- The other branch; its own `sz` hides the caller's, and is the one of number `local_info`.
    unfoldable pub gather_other :
        Layout → Sendable → ℕ → Answers → Unpacking S → Vcluster → Option (Vcluster × Unpacking S)
    unfolding enter gather_messages
    gather_other l x base a u s =
        let k = s.scnt in
        let mem = reset_recv_buf k s.nbx.mem in
        let start = record s.nbx { mem = enter none k prc local_info mem } in
        gather_messages root l x base >>= λ o.
        sync_unknown m o msg_alloc local_info a.polls start >>= λ n. some (record s { nbx = n }, u)

    unfoldable pub s_gather :
        Layout
        → Sendable
        → ℕ
        → (Unpacking S → Unpacking S)
        → ℕ
        → Answers
        → Unpacking S
        → Vcluster
        → Option (Vcluster × Unpacking S)
    unfolding gather_root gather_other
    s_gather l x base add own a u s =
        if leb nqueue s.scnt
        then none
        else if rank == root
        then gather_root add own a u s
        else gather_other l x base a u s
