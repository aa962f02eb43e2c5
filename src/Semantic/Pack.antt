-- ===== src/Semantic/Pack.antt =====
-- What is sent of an object, and how received buffers become objects again
-- (VCluster/VCluster_meta_function.hpp).
pub mod Unpack
pub mod Sending
pub mod Serializing
pub mod Serials
pub mod RoundTrip
pub mod Sizes
pub mod Network
pub mod InOrder
use openfpm_vcluster.Prelude.{
  ℕ, ◌+◌, ◌*◌, Option, none, some, List, [], ◌∷◌, ◌++◌, map, length, replicate, ◌>>=◌,
}
use openfpm_vcluster.Nbx.State.{Outgoing}
use openfpm_vcluster.Semantic.Reorder.{Buffer}

-- A piece of the memory of a vector: its address, and its bytes
pub record Column : Type 0 where
  pub address : ℕ
  pub bytes : Buffer

-- How a vector keeps its elements: in one piece of memory, with the size of an element, or with a
-- piece of memory for each property, with the sizes of the properties.
pub data Layout : Type 0 where
  linear : ℕ → Layout
  interleaved : List ℕ → Layout

-- An openfpm::vector, by its number of elements and its memory
pub record Vector : Type 0 where
  pub size : ℕ
  pub columns : List Column

-- T::value_type::max_prop pieces, or one
abbrev pub widths : Layout → List ℕ
widths (linear w) = w ∷ []
widths (interleaved ws) = ws

-- pack_unpack_cond_with_prp_inte_lin::set_size_buffers, which adds to `sz`
unfoldable pub set_size_buffers : Layout → Vector → List ℕ → List ℕ
set_size_buffers (linear w) v sz = sz ++ v.size * w ∷ []
set_size_buffers (interleaved ws) v sz = sz ++ map (λ w. w * v.size) ws

abbrev pub addresses : List Column → List ℕ
addresses [] = []
addresses (c ∷ cs) = c.address ∷ addresses cs

-- pack_unpack_cond_with_prp_inte_lin::set_buffers, without GPU-direct; the vector has as many
-- pieces of memory as its layout.
unfoldable pub set_buffers : Vector → List ℕ → List ℕ
set_buffers v send_buf = send_buf ++ addresses v.columns

-- pack_unpack_cond_with_prp_inte_lin::construct_prc: a process for each message
unfoldable pub construct_prc : Layout → List ℕ → List ℕ
construct_prc l [] = []
construct_prc (linear w) (p ∷ ps) = p ∷ construct_prc (linear w) ps
construct_prc (interleaved ws) (p ∷ ps) =
    replicate (length ws) p ++ construct_prc (interleaved ws) ps

-- An object that is serialized: packRequest adds `request` to the size, and pack writes `packed`
-- behind what was packed before.
pub record Serial : Type 0 where
  pub request : ℕ
  pub packed : Buffer

-- What is sent: a vector that goes as it is, or an object to serialize
pub data Sendable : Type 0 where
  direct : Layout → Vector → Sendable
  serial : Serial → Sendable

-- packingRequest, on its `tot_size` and `sz`
unfoldable pub packing_request : Sendable → ℕ × List ℕ → ℕ × List ℕ
unfolding set_size_buffers
packing_request (direct l v) (tot_size, sz) = (tot_size, set_size_buffers l v sz)
packing_request (serial o) (tot_size, sz) =
    (tot_size + o.request, sz ++ (tot_size + o.request) ∷ [])

-- The memory for what is serialized: its address, and what it holds so far
pub record PackMem : Type 0 where
  pub base : ℕ
  pub written : Buffer

-- packing: getPointerEnd is the first byte that is not written yet.
unfoldable pub packing : Sendable → PackMem × List ℕ → PackMem × List ℕ
unfolding set_buffers
packing (direct l v) (mem, send_buf) = (mem, set_buffers v send_buf)
packing (serial o) (mem, send_buf) = (
  record mem { written = mem.written ++ o.packed },
  send_buf ++ (mem.base + length mem.written) ∷ [],
)

-- The loops of prepare_send_buffer over the objects: `req` starts at 0 for each.
unfoldable pub request_all : List Sendable → ℕ × List ℕ → ℕ × List ℕ
unfolding packing_request
request_all [] r = r
request_all (x ∷ xs) (tot_size, sz) =
    let (req, sz') = packing_request x (0, sz) in request_all xs (tot_size + req, sz')

unfoldable pub pack_all : List Sendable → PackMem × List ℕ → PackMem × List ℕ
unfolding packing
pack_all [] r = r
pack_all (x ∷ xs) r = pack_all xs (packing x r)

-- The arrays that the exchange reads: `none` reads a size or an address past the end.
unfoldable pub messages : List ℕ → List ℕ → List ℕ → Option (List Outgoing)
messages [] sz ptr = some []
messages (p ∷ ps) [] ptr = none
messages (p ∷ ps) (z ∷ sz) [] = none
messages (p ∷ ps) (z ∷ sz) (a ∷ ptr) =
    messages ps sz ptr >>= λ outs. some (record { sz = z; prc = p; ptr = a } ∷ outs)
