-- ===== src/Semantic/Alloc.antt =====
-- The receive buffers of Vcluster and its call-backs msg_alloc and msg_alloc_known
-- (VCluster/VCluster.hpp).
pub mod Recording
pub mod Growth
pub mod Polling
pub mod Hearing
use openfpm_vcluster.Prelude.{
  ℕ, zero, suc, ◌+◌, Option, none, some, List, [], ◌∷◌, ◌++◌, set, replicate, update,
}
use openfpm_vcluster.Nbx.State.{MsgAlloc}
use openfpm_vcluster.Semantic.Reorder.{Buffer}

-- base_info: the vectors that a call-back fills, each by a number that stands for its address;
-- `recv_buf` is `none` for NULL.
pub record BaseInfo : Type 0 where
  pub recv_buf : Option ℕ
  pub prc : ℕ
  pub sz : ℕ
  pub tags : ℕ
  pub opt : ℕ

-- The vectors that a Vcluster and its callers own. The numbers 0 to 3 of `infos` are NBX_prc_bi, and
-- those of `recv_buf`, `tags` and `sz` are recv_buf, tags and sz_recv_byte; the caller's vectors
-- have other numbers. `address` is the address of a buffer of a vector of buffers.
pub record Memory : Type 0 where
  pub recv_buf : ℕ → List Buffer
  pub prc : ℕ → List ℕ
  pub sz : ℕ → List ℕ
  pub tags : ℕ → List ℕ
  pub infos : ℕ → BaseInfo
  pub address : ℕ → ℕ → ℕ

-- openfpm::vector_fr::resize: new buffers are empty.
pub resize_bufs : ℕ → List Buffer → List Buffer
resize_bufs zero bs = []
resize_bufs (suc n) [] = [] ∷ resize_bufs n []
resize_bufs (suc n) (b ∷ bs) = b ∷ resize_bufs n bs

-- A buffer before the message is received into it; what its bytes are does not matter, and 0 stands
-- for them.
abbrev pub fresh_buffer : ℕ → Buffer
fresh_buffer n = replicate n 0

-- The bytes of a message, which MPI writes to a buffer from its start, as far as there is room
abbrev pub write_buffer : Buffer → Buffer → Buffer
write_buffer [] b = b
write_buffer (x ∷ xs) [] = []
write_buffer (x ∷ xs) (y ∷ b) = x ∷ write_buffer xs b

abbrev pub write_buffers : List Buffer → List Buffer → List Buffer
write_buffers [] bs = bs
write_buffers (c ∷ cs) [] = []
write_buffers (c ∷ cs) (b ∷ bs) = write_buffer c b ∷ write_buffers cs bs

-- The receive buffers when MPI has written them
abbrev pub received_into : (ℕ → List Buffer) → Memory → Memory
received_into contents m = record m { recv_buf = λ b. write_buffers (contents b) (m.recv_buf b) }

-- recv_buf->resize(ri+1); recv_buf->get(ri).resize(msg_i)
unfoldable pub make_room : ℕ → ℕ → List Buffer → List Buffer
unfolding resize_bufs
make_room ri msg_i bs = set (resize_bufs (ri + 1) bs) ri (fresh_buffer msg_i)

-- base_info::set, for the call at position `k`: `own` are the vectors of that position, and `caller`
-- is the caller's prc_recv.
unfoldable pub set_info : ℕ → ℕ → ℕ → Memory → Memory
set_info k caller opt m = record m {
  infos =
      update m.infos k (record { recv_buf = some k; prc = caller; sz = k; tags = k; opt = opt });
}

-- Without a CUDA-aware MPI the address returned is that of the host buffer, whatever `opt` says.
unfoldable pub msg_alloc : MsgAlloc Memory
msg_alloc a arg m = elim (m.infos arg).recv_buf [
  | none ↦ (0, m)
  | some b ↦ (
    m.address b a.ri,
    record m {
      recv_buf = update m.recv_buf b (make_room a.ri a.msg_i (m.recv_buf b));
      prc = update m.prc (m.infos arg).prc (m.prc (m.infos arg).prc ++ a.proc ∷ []);
      sz = update m.sz (m.infos arg).sz (m.sz (m.infos arg).sz ++ a.msg_i ∷ []);
      tags = update m.tags (m.infos arg).tags (m.tags (m.infos arg).tags ++ a.tag ∷ []);
    },
  )
]

unfoldable pub msg_alloc_known : MsgAlloc Memory
msg_alloc_known a arg m = elim (m.infos arg).recv_buf [
  | none ↦ (0, m)
  | some b ↦ (
    m.address b a.ri,
    record m { recv_buf = update m.recv_buf b (make_room a.ri a.msg_i (m.recv_buf b)) },
  )
]

-- Vcluster::reset_recv_buf, at position `k`
unfoldable pub reset_recv_buf : ℕ → Memory → Memory
reset_recv_buf k m = record m { recv_buf = update m.recv_buf k [] }
