-- ===== src/Semantic/Merge.antt =====
-- The operations that merge a received vector in the receiving object (VCluster/VCluster_meta_function.hpp).
pub mod Filling
pub mod Pairing
use openfpm_vcluster.Prelude.{
  ℕ, ◌+◌, ◌-◌, ◌/◌, ◌%◌, ◌^◌, Bool, true, false, Option, some, List, get_elem?, ◌==◌, if◌then◌else◌,
  ◌>>=◌,
}
use openfpm_vcluster.Semantic.Pack.Unpack.{View}
use openfpm_vcluster.Semantic.Send.{has_flag}

-- What the operations call of the receiving vector, of type `D`, and of its library: size, add_prp,
-- merge_prp_v with the operation and an entry of `opart` (of type `P`), merge_prp_v_device with the
-- entries from one to another of it, merge_prp_v and merge_prp_device with replace_ from an element on,
-- and hostToDevice of the elements from one to another.
pub record Receiver (D P : Type 0) : Type 0 where
  pub size : D → ℕ
  pub add_prp : View → D → D
  pub merge_prp_v : View → P → D → D
  pub merge_prp_v_device : View → List P → ℕ → ℕ → D → D
  pub replace_prp_v : View → ℕ → D → D
  pub replace_prp_device : View → ℕ → D → D
  pub host_to_device : ℕ → ℕ → D → D

abbrev pub mpi_gpu_direct : ℕ
mpi_gpu_direct = 16

-- The last of `n` elements from element `start` on
abbrev pub last_of : ℕ → ℕ → ℕ
last_of start n = (start + n + 2 ^ 64 - 1) % 2 ^ 64

module _ {D P : Type 0} (lib : Receiver D P) where
  -- op_ssend_recv_add_sr, where MPI is not CUDA-aware; `sr` tells whether the vector was serialized.
  unfoldable pub recv_add_sr : (sr : Bool) → ℕ → View → D → D
  recv_add_sr true opt v recv = lib.add_prp v recv
  recv_add_sr false opt v recv =
      if has_flag opt mpi_gpu_direct
      then lib.host_to_device (lib.size recv) (last_of (lib.size recv) v.size) (lib.add_prp v recv)
      else lib.add_prp v recv

  -- op_ssend_recv_add; `i` is the number of the message.
  unfoldable pub recv_add : Bool → ℕ → ℕ → View → D → D
  unfolding recv_add_sr
  recv_add sr opt i v recv = recv_add_sr sr opt v recv

  -- op_ssend_recv_merge_impl; both variants do this, with different memories. `none` is a read past
  -- the end of `opart`.
  unfoldable pub recv_merge_impl : List P → ℕ → View → D → Option D
  recv_merge_impl opart i v recv = get_elem? opart i >>= λ o. some (lib.merge_prp_v v o recv)

  -- op_ssend_recv_merge; `none` is a receiving object after such a read.
  unfoldable pub recv_merge : List P → ℕ → View → Option D → Option D
  unfolding recv_merge_impl
  recv_merge opart i v recv = recv >>= λ d. recv_merge_impl opart i v d

  -- The first element of `opart` that op_ssend_recv_merge_gpu_impl merges with: an entry of `prc_off`,
  -- unless the message is the first. `n` is the number of properties; an index below 0 wraps, and
  -- the entry is cut to the 32 bits of `unsigned int`.
  unfoldable pub merge_start : ℕ → List ℕ → ℕ → Option ℕ
  merge_start n prc_off i =
      let before = get_elem? prc_off ((i / n + 2 ^ 64 - 1) % 2 ^ 64) in
      if i == 0 then some 0 else before >>= λ start. some (start % 2 ^ 32)

  -- op_ssend_recv_merge_gpu_impl; with serialization it complains.
  unfoldable pub recv_merge_gpu_impl : Bool → ℕ → List P → List ℕ → ℕ → View → D → Option D
  unfolding merge_start
  recv_merge_gpu_impl true n opart prc_off i v recv = some recv
  recv_merge_gpu_impl false n opart prc_off i v recv = get_elem? prc_off (i / n) >>= λ stop.
      merge_start n prc_off i >>= λ start.
      some (lib.merge_prp_v_device v opart start (stop % 2 ^ 32) recv)

  -- op_ssend_recv_merge_gpu
  unfoldable pub recv_merge_gpu : Bool → ℕ → List P → List ℕ → ℕ → View → Option D → Option D
  unfolding recv_merge_gpu_impl
  recv_merge_gpu sr n opart prc_off i v recv =
      recv >>= λ d. recv_merge_gpu_impl sr n opart prc_off i v d

  -- op_ssend_gg_recv_merge_impl, on the receiving object and the field `start` of the operation; the
  -- variant for serialized vectors does this with another memory.
  unfoldable pub gg_merge_impl : View → D × ℕ → D × ℕ
  gg_merge_impl v (recv, start) = (lib.replace_prp_v v start recv, (start + v.size) % 2 ^ 64)

  -- op_ssend_gg_recv_merge
  unfoldable pub gg_recv_merge : ℕ → View → D × ℕ → D × ℕ
  unfolding gg_merge_impl
  gg_recv_merge i v r = gg_merge_impl v r

  -- op_ssend_gg_recv_merge_impl_run_device
  unfoldable pub run_device_impl : View → D × ℕ → D × ℕ
  run_device_impl v (recv, start) = (
    lib.host_to_device start (last_of start v.size) (lib.replace_prp_v v start recv),
    (start + v.size) % 2 ^ 64,
  )

  -- op_ssend_gg_recv_merge_impl_run_device_direct
  unfoldable pub run_device_direct : View → D × ℕ → D × ℕ
  run_device_direct v (recv, start) =
      (lib.replace_prp_device v start recv, (start + v.size) % 2 ^ 64)

  -- op_ssend_gg_recv_merge_run_device; is_mpi_rdma_cuda_active() is `active`.
  unfoldable pub gg_recv_merge_run_device : (active : Bool) → ℕ → View → D × ℕ → D × ℕ
  unfolding run_device_impl run_device_direct
  gg_recv_merge_run_device true i v r = run_device_direct v r
  gg_recv_merge_run_device false i v r = run_device_impl v r
