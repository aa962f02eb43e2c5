-- ===== src/Semantic/Delivery/Contents.antt =====
-- The received messages with their bytes (VCluster/VCluster.hpp: the receive buffers).
use openfpm_vcluster.Prelude.{ℕ, ◌≡◌, refl, ap, ◌∙◌, List, [], ◌∷◌}
use openfpm_vcluster.Semantic.Reorder.{Buffer}
use openfpm_vcluster.Semantic.Reorder.Order.{Arrival, bufs_of, procs_of, tags_of, sizes_of}
use openfpm_vcluster.Semantic.Alloc.{BaseInfo, Memory, write_buffer, write_buffers, received_into}
use openfpm_vcluster.Semantic.Alloc.Recording.{Records}

-- The messages, when MPI has written their bytes
abbrev pub carrying : List Buffer → List Arrival → List Arrival
carrying [] rs = rs
carrying (c ∷ cs) [] = []
carrying (c ∷ cs) (r ∷ rs) = record r { buf = write_buffer c r.buf } ∷ carrying cs rs

pub bufs_of-carrying :
    (cs : List Buffer) (rs : List Arrival)
    → write_buffers cs (bufs_of rs) ≡ bufs_of (carrying cs rs)
bufs_of-carrying [] rs = refl
bufs_of-carrying (c ∷ cs) [] = refl
bufs_of-carrying (c ∷ cs) (r ∷ rs) = ap (λ t. write_buffer c r.buf ∷ t) (bufs_of-carrying cs rs)

pub procs_of-carrying :
    (cs : List Buffer) (rs : List Arrival) → procs_of rs ≡ procs_of (carrying cs rs)
procs_of-carrying [] rs = refl
procs_of-carrying (c ∷ cs) [] = refl
procs_of-carrying (c ∷ cs) (r ∷ rs) = ap (λ t. r.proc ∷ t) (procs_of-carrying cs rs)

pub tags_of-carrying :
    (cs : List Buffer) (rs : List Arrival) → tags_of rs ≡ tags_of (carrying cs rs)
tags_of-carrying [] rs = refl
tags_of-carrying (c ∷ cs) [] = refl
tags_of-carrying (c ∷ cs) (r ∷ rs) = ap (λ t. r.tag ∷ t) (tags_of-carrying cs rs)

pub sizes_of-carrying :
    (cs : List Buffer) (rs : List Arrival) → sizes_of rs ≡ sizes_of (carrying cs rs)
sizes_of-carrying [] rs = refl
sizes_of-carrying (c ∷ cs) [] = refl
sizes_of-carrying (c ∷ cs) (r ∷ rs) = ap (λ t. r.sz ∷ t) (sizes_of-carrying cs rs)

-- What is written changes only the buffers, each in its place.
pub Records-carrying :
    (contents : ℕ → List Buffer) (m : Memory) (j : ℕ) (info : BaseInfo) (rs : List Arrival)
    → Records m j info rs
    → Records (received_into contents m) j info (carrying (contents j) rs)
Records-carrying contents m j info rs h = record {
  target = h.target;
  bufs = ap (write_buffers (contents j)) h.bufs ∙ bufs_of-carrying (contents j) rs;
  procs = h.procs ∙ procs_of-carrying (contents j) rs;
  sizes = h.sizes ∙ sizes_of-carrying (contents j) rs;
  tags = h.tags ∙ tags_of-carrying (contents j) rs;
}
