-- ===== src/Semantic/Send.antt =====
-- The calls SSendRecv of Vcluster, with their asynchronous halves (VCluster/VCluster.hpp).
pub mod Positions
pub mod Cells
pub mod Fifo
pub mod Refines
pub mod Known
pub mod Announced
pub mod Lone
pub mod Starting
pub mod Exchanging
pub mod KnownExchange
pub mod KnownPairing
pub mod Shown
pub mod Belonging
pub mod Merging
pub mod Serials
pub mod Halves
pub mod Variants
pub mod Session
pub mod Next
pub mod Asynchronous
pub mod Calling
pub mod Waits
pub mod WaitAll
pub mod InFlight
use openfpm_vcluster.Prelude.{
  ℕ, ◌+◌, ◌*◌, ◌/◌, ◌%◌, ◌^◌, Bool, Option, none, some, List, [], ◌∷◌, length, update, leb, ◌==◌,
  if◌then◌else◌, ◌>>=◌,
}
use openfpm_vcluster.Wire.{Mpi}
use openfpm_vcluster.Tags.{nqueue}
use openfpm_vcluster.Nbx.State.{Nbx}
use openfpm_vcluster.Nbx.Post.{resize, async_unknown, async_known, async_known_prc}
use openfpm_vcluster.Nbx.Wait.{Answers, with_sizes, nbx_wait}
use openfpm_vcluster.Semantic.Reorder.{Buffer, Entry, reorder_buffer}
use openfpm_vcluster.Semantic.Alloc.{
  Memory, set_info, msg_alloc, msg_alloc_known, reset_recv_buf, received_into,
}
use openfpm_vcluster.Semantic.Pack.{
  Layout, Sendable, construct_prc, PackMem, request_all, pack_all, messages,
}
use openfpm_vcluster.Semantic.Pack.Unpack.{Unpacking}

-- A Vcluster: the part of Vcluster_base with the vectors, NBX_prc_scnt, NBX_prc_pcnt, and the memory
-- that mem[j] and pmem[j] point at, until it is deleted.
pub record Vcluster : Type 0 where
  pub nbx : Nbx Memory
  pub scnt : ℕ
  pub pcnt : ℕ
  pub mem : ℕ → Option PackMem

-- The arguments of a call, but those for the receiving object: `prc_recv` is the number of the
-- caller's vector, `value_size` is sizeof(typename T::value_type), or `none` where the elements are
-- packed, and `base` is the address of the new memory.
pub record Request : Type 0 where
  pub layout : Layout
  pub send : List Sendable
  pub prc_send : List ℕ
  pub prc_recv : ℕ
  pub sz_recv : List ℕ
  pub opt : ℕ
  pub value_size : Option ℕ
  pub base : ℕ

abbrev pub receive_known : ℕ
receive_known = 4

abbrev pub known_element_or_byte : ℕ
known_element_or_byte = 8

-- `opt & flag`, for a flag of one bit
abbrev pub has_flag : ℕ → ℕ → Bool
has_flag opt flag = opt / flag % 2 == 1

abbrev pub resized : ℕ → ℕ → Memory → Memory
resized k n m = record m { sz = update m.sz k (resize n (m.sz k)) }

abbrev pub set_bytes : ℕ → List ℕ → Memory → Memory
set_bytes k bytes m = record m { sz = update m.sz k bytes }

-- tags[k].clear(); prc_recv.clear()
abbrev pub forget : ℕ → ℕ → Memory → Memory
forget k caller m = record m { tags = update m.tags k []; prc = update m.prc caller [] }

-- The sizes of the receives in bytes; where the elements are packed the code complains, and leaves
-- sz_recv_byte[k] as it is.
unfoldable pub known_bytes : Option ℕ → List ℕ → List ℕ → List ℕ
known_bytes none sz_recv old = old
known_bytes (some w) [] old = []
known_bytes (some w) (n ∷ ns) old = n * w % 2 ^ 64 ∷ known_bytes (some w) ns old

-- The three calls of sendrecvMultipleMessagesNBXAsync at the end of prepare_send_buffer; `sz` is
-- send_sz_byte and `ptr` is send_buf. `&NBX_prc_bi` is the address of the first entry.
unfoldable pub post_sends : Request → ℕ → List ℕ → List ℕ → Nbx Memory → Option (Nbx Memory)
unfolding known_bytes
post_sends r k sz ptr s =
    let bytes = known_bytes r.value_size r.sz_recv (s.mem.sz k) in
    let by_element : Option (Nbx Memory) = messages r.prc_send sz ptr >>= λ outs.
    with_sizes (s.mem.prc r.prc_recv) bytes >>= λ ins.
    some (async_known outs ins msg_alloc_known 0 (record s { mem = set_bytes k bytes s.mem })) in
    let by_process : Option (Nbx Memory) = messages r.prc_send sz ptr >>= λ outs.
    let t = async_known_prc outs (s.mem.prc r.prc_recv) msg_alloc_known 0 s in
    some (record t { mem = set_bytes k t.sz_recv_tmp t.mem }) in
    let unknown : Option (Nbx Memory) =
      messages (construct_prc r.layout r.prc_send) sz ptr >>= λ outs.
      async_unknown outs msg_alloc k (record s { mem = forget k r.prc_recv s.mem }) in
    if has_flag r.opt receive_known
    then (if has_flag r.opt known_element_or_byte then by_element else by_process)
    else unknown

-- What prepare_send_buffer does at position NBX_prc_scnt but to allocate the memory
unfoldable pub fill_and_post : Request → Vcluster → Option (Nbx Memory)
unfolding post_sends
fill_and_post r s =
    let k = s.scnt in
    let m = reset_recv_buf k (resized k (length r.sz_recv) s.nbx.mem) in
    let sizes = request_all r.send (0, []) in
    let packed = pack_all r.send (record { base = r.base; written = [] }, []) in
    post_sends r k sizes.1 packed.1 (record s.nbx { mem = set_info k r.prc_recv r.opt m })

abbrev pub packed_of : Request → PackMem
packed_of r = (pack_all r.send (record { base = r.base; written = [] }, [])).0

-- A position past the arrays of NQUEUE entries is `none`.
unfoldable pub prepare_send_buffer : Request → Vcluster → Option Vcluster
unfolding fill_and_post
prepare_send_buffer r s =
    let posted = fill_and_post r s in
    if leb nqueue s.scnt
    then none
    else posted >>= λ n. some (record s { nbx = n; mem = update s.mem s.scnt (some (packed_of r)) })

-- SSendRecvAsync, SSendRecvPAsync and SSendRecvP_opAsync
unfoldable pub ssend_recv_async : Request → Vcluster → Option Vcluster
unfolding prepare_send_buffer
ssend_recv_async r s = prepare_send_buffer r s >>= λ t. some (record t { scnt = t.scnt + 1 })

-- mem[j]->decRef(); delete mem[j]; delete pmem[j]. To delete what is not there is `none`.
unfoldable pub free_mem : ℕ → Vcluster → Option Vcluster
free_mem j s = elim (s.mem j) [
  | none ↦ none
  | some x ↦ some (record s { mem = update s.mem j none })
]

-- The state when MPI has written the receive buffers
abbrev pub with_contents : Answers → Nbx Memory → Nbx Memory
with_contents a n = record n { mem = received_into a.contents n.mem }

-- NBX_prc_pcnt++, and the reset of both counters
unfoldable pub next_wait : Vcluster → Vcluster
next_wait s =
    if s.scnt == s.pcnt + 1 then record s { scnt = 0; pcnt = 0 } else record s { pcnt = s.pcnt + 1 }

-- reorder_buffer(prc_recv,tags[j],sz_recv_byte[j]), on the receive buffers of position NBX_prc_pcnt
unfoldable pub reorder_at :
    (List Entry → List Entry) → ℕ → ℕ → Vcluster → Option (Vcluster × List Buffer)
unfolding reorder_buffer
reorder_at sort j caller s =
    let m = s.nbx.mem in
    let done = reorder_buffer sort (m.recv_buf s.pcnt) (m.prc caller) (m.tags j) (m.sz j) in
    done >>= λ o.
    let m' : Memory = record m {
      recv_buf = update m.recv_buf s.pcnt o.recv_buf;
      prc = update m.prc caller o.prc;
      sz = update m.sz j o.sz_recv;
    } in
    some (record s { nbx = record s.nbx { mem = m' } }, o.recv_buf)

-- Unpacker or the vectors, and the operation, are `unpack`: process_receive_buffer_with_prp on the
-- buffers of position NBX_prc_pcnt.
module _ (m : Mpi) (sort : List Entry → List Entry) {S : Type 0}
    (unpack : List Buffer → Unpacking S → Option (Unpacking S)) where
  -- What follows the preparation, or the asynchronous call, with the tags, sizes and memory of
  -- position `j`
  unfoldable pub complete :
      ℕ → ℕ → Answers → Unpacking S → Vcluster → Option (Vcluster × Unpacking S)
  unfolding free_mem reorder_at
  complete j caller a u s =
      if leb nqueue j
      then none
      else nbx_wait m a s.nbx >>= λ n.
          reorder_at sort j caller (record s { nbx = with_contents a n }) >>= λ r.
          free_mem j r.0 >>= λ t. unpack r.1 u >>= λ v. some (t, v)

  -- SSendRecv, SSendRecvP and SSendRecvP_op
  unfoldable pub ssend_recv :
      Request → Answers → Unpacking S → Vcluster → Option (Vcluster × Unpacking S)
  unfolding prepare_send_buffer complete
  ssend_recv r a u s = prepare_send_buffer r s >>= λ t. complete t.scnt r.prc_recv a u t

  -- SSendRecvWait, SSendRecvPWait and SSendRecvP_opWait
  unfoldable pub ssend_recv_wait :
      ℕ → Answers → Unpacking S → Vcluster → Option (Vcluster × Unpacking S)
  unfolding complete next_wait
  ssend_recv_wait caller a u s = complete s.pcnt caller a u s >>= λ r. some (next_wait r.0, r.1)

  -- The variants differ in which of sz and sz_byte they hand to the unpacking: SSendRecvP
  abbrev pub ssend_recv_p :
      Request → Answers → S → List ℕ → Vcluster → Option (Vcluster × Unpacking S)
  ssend_recv_p r a recv sz_recv_byte_out s =
      ssend_recv r a (record { recv = recv; sz = some r.sz_recv; sz_byte = some sz_recv_byte_out })
        s

  -- SSendRecvP_op
  abbrev pub ssend_recv_p_op : Request → Answers → S → Vcluster → Option (Vcluster × Unpacking S)
  ssend_recv_p_op r a recv s = ssend_recv r a (record { recv = recv; sz = none; sz_byte = none }) s

  -- SSendRecvPWait
  abbrev pub ssend_recv_p_wait :
      ℕ → Answers → S → List ℕ → List ℕ → Vcluster → Option (Vcluster × Unpacking S)
  ssend_recv_p_wait prc_recv a recv sz_recv sz_recv_byte_out s =
      ssend_recv_wait prc_recv a
        (record { recv = recv; sz = some sz_recv; sz_byte = some sz_recv_byte_out }) s

  -- SSendRecvP_opWait
  abbrev pub ssend_recv_p_op_wait : ℕ → Answers → S → Vcluster → Option (Vcluster × Unpacking S)
  ssend_recv_p_op_wait prc_recv a recv s =
      ssend_recv_wait prc_recv a (record { recv = recv; sz = none; sz_byte = none }) s
