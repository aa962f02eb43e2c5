-- ===== src/Wire/Examples.antt =====
-- The statements on the wrappers, at a usual 64-bit MPI.
use openfpm_vcluster.Prelude.{◌*◌, ◌<◌, ◌≤◌, ◌≡◌, some, arith}
use openfpm_vcluster.Wire.{
  double_c, transfer_bytes, isend_buffer, irecv_buffer, issend_buffer, Probed, probe_size,
  recv_probed,
}
use openfpm_vcluster.Wire.Sizes.{issend-probe_big, isend-irecv_big}
use openfpm_vcluster.Wire.Vectors.{MovesAll, wrappers-MovesAll}
use openfpm_vcluster.Wire.Platform.{usual_mpi, usual_mpi-IsStandard, usual_sizeof, usual_mpi-IsAbi}

issend-probe_big_example :
    (p : Probed) × (probe_size usual_mpi (transfer_bytes usual_mpi (issend_buffer 2147483648))
      ≡ some p)
    × (2147483648 < p.msize)
    × (p.msize ≤ 2147483656)
    × (transfer_bytes usual_mpi (recv_probed p) ≡ p.msize)
issend-probe_big_example =
    issend-probe_big usual_mpi usual_mpi-IsStandard 2147483648 (omega arith) (omega arith)

isend-irecv_big_example :
    (transfer_bytes usual_mpi (irecv_buffer 4294967296)
      < transfer_bytes usual_mpi (isend_buffer 4294967296))
    × (8 * transfer_bytes usual_mpi (irecv_buffer 4294967296) ≤ 4294967296)
isend-irecv_big_example =
    isend-irecv_big usual_mpi usual_mpi-IsStandard 4294967296 (omega arith) (omega arith)

wrappers-MovesAll_doubles : MovesAll usual_mpi usual_sizeof double_c 3
wrappers-MovesAll_doubles =
    wrappers-MovesAll usual_mpi usual_mpi-IsStandard usual_sizeof usual_mpi-IsAbi double_c 3
      (omega arith)
