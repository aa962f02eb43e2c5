-- ===== src/Semantic/Collect/Receiver.antt =====
-- SScatter at a process that is not the root (VCluster/VCluster.hpp).
use openfpm_vcluster.Prelude.{List}
use openfpm_vcluster.Nbx.State.{Nbx}
