-- ===== src/Nbx/Entering.antt =====
-- Which barriers a process enters after a round of polling (VCluster/VCluster_base.hpp,
-- progressCommunication).
use openfpm_vcluster.Prelude.{ℕ, not, ◌&&◌, List, [], ◌∷◌, if◌then◌else◌}
use openfpm_vcluster.Nbx.State.{Call, ibarrier, Nbx}
use openfpm_vcluster.Nbx.Progress.{Poll}
use openfpm_vcluster.Nbx.Barrier.{enters}

module _ {U : Type 0} where
  -- The barrier that the process enters for position `j`, if it enters one now
  abbrev pub barrier_of : Poll → Nbx U → ℕ → List Call
  barrier_of p s j = if enters p s j && not (s.slots j).reached_bar_req then ibarrier ∷ [] else []
