-- ===== src/Nbx/Collective.antt =====
-- The collective operations of VCluster/VCluster_base.hpp, each of which posts requests that execute
-- waits for.
pub mod Batch
use openfpm_vcluster.Prelude.{ℕ, ◌+◌, ◌*◌, Option, none, some, List, [], ◌∷◌, ◌++◌, ◌>>=◌}
use openfpm_vcluster.Wire.{CType, mpi_byte, transfer, ireduce, igather, ibcast_vector}
use openfpm_vcluster.Nbx.State.{
  ReduceOp, mpi_sum, mpi_max, mpi_min, Ptr, iallreduce, iallgather, ibcast, Nbx, post,
}
use openfpm_vcluster.Nbx.Post.{send, recv, send_vector, recv_vector}

module _ {U : Type 0} where
  -- MPI_IallreduceW::reduce on a new request. For a type without a reduction it prints an error and
  -- leaves the request that was added uninitialised, which execute then waits for: that is `none`.
  unfoldable pub all_reduce : ReduceOp → CType → Nbx U → Option (Nbx U)
  all_reduce op c s = elim (ireduce c) [ some t ↦ some (post (iallreduce op t) s) | none ↦ none ]

  unfoldable pub sum : CType → Nbx U → Option (Nbx U)
  unfolding all_reduce
  sum = all_reduce mpi_sum

  unfoldable pub max : CType → Nbx U → Option (Nbx U)
  unfolding all_reduce
  max = all_reduce mpi_max

  unfoldable pub min : CType → Nbx U → Option (Nbx U)
  unfolding all_reduce
  min = all_reduce mpi_min

  -- One element from each process
  unfoldable pub all_gather : CType → Nbx U → Nbx U
  all_gather c = post (iallgather (igather c 1))

  -- b_cast_helper<true>: a vector of `n` elements in one piece of memory
  unfoldable pub bcast_linear : ℕ → CType → ℕ → Nbx U → Nbx U
  bcast_linear root c n = post (ibcast root (ibcast_vector c n))

  -- b_cast_helper<false>: a vector of `n` elements with one piece of memory for each property, of
  -- these sizes
  unfoldable pub bcast_properties : ℕ → List ℕ → ℕ → Nbx U → Nbx U
  bcast_properties root [] n s = s
  bcast_properties root (w ∷ ws) n s =
      bcast_properties root ws n (post (ibcast root (transfer (n * w) mpi_byte)) s)

-- One call of the operations that post requests. `broadcast_properties` has the sizes of the
-- element's properties.
pub data Operation : Type 0 where
  send_bytes : ℕ → ℕ → Ptr → ℕ → Operation
  receive_bytes : ℕ → ℕ → Ptr → ℕ → Operation
  send_elements : ℕ → ℕ → CType → ℕ → ℕ → Operation
  receive_elements : ℕ → ℕ → CType → ℕ → ℕ → Operation
  add_up : CType → Operation
  greatest : CType → Operation
  least : CType → Operation
  gather : CType → Operation
  broadcast : ℕ → CType → ℕ → Operation
  broadcast_properties : ℕ → List ℕ → ℕ → Operation

module _ {U : Type 0} where
  unfoldable pub perform : Operation → Nbx U → Option (Nbx U)
  perform (send_bytes p t v z) s = some (send p t v z s)
  perform (receive_bytes p t v z) s = some (recv p t v z s)
  perform (send_elements p t c v n) s = some (send_vector p t c v n s)
  perform (receive_elements p t c v n) s = some (recv_vector p t c v n s)
  perform (add_up c) s = sum c s
  perform (greatest c) s = max c s
  perform (least c) s = min c s
  perform (gather c) s = some (all_gather c s)
  perform (broadcast root c n) s = some (bcast_linear root c n s)
  perform (broadcast_properties root ws n) s = some (bcast_properties root ws n s)

  unfoldable pub perform_all : List Operation → Nbx U → Option (Nbx U)
  perform_all [] s = some s
  perform_all (o ∷ os) s = perform o s >>= λ t. perform_all os t
