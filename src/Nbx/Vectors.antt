-- ===== src/Nbx/Vectors.antt =====
-- The overloads of sendrecvMultipleMessagesNBX and sendrecvMultipleMessagesNBXAsync that take vectors
-- of vectors (VCluster/VCluster_base.hpp).
use openfpm_vcluster.Prelude.{
  ℕ, ◌+◌, ◌*◌, ◌%◌, ◌^◌, ◌<◌, ◌≡◌, refl, ap, Option, none, some, List, [], ◌∷◌, length, leb,
  if◌then◌else◌, ◌>>=◌, arith,
}
use openfpm_vcluster.Wire.{Mpi}
use openfpm_vcluster.Tags.{nqueue}
use openfpm_vcluster.Nbx.State.{Outgoing, MsgAlloc, complain, queue_full, Nbx, note}
use openfpm_vcluster.Nbx.Post.{enqueue, async_unknown, async_known}
use openfpm_vcluster.Nbx.Progress.{Poll}
use openfpm_vcluster.Nbx.Wait.{with_sizes, sync_unknown, sync_known}

-- A vector to send: the address of its elements, and their number
pub record Elements : Type 0 where
  pub address : ℕ
  pub size : ℕ

-- The loop that fills ptr_send and sz_send, for elements of `w` bytes; `none` reads `sent` past its end.
unfoldable pub data_messages : ℕ → List ℕ → List Elements → Option (List Outgoing)
data_messages w [] sent = some []
data_messages w (p ∷ ps) [] = none
data_messages w (p ∷ ps) (x ∷ xs) = data_messages w ps xs >>= λ outs.
    some (record { sz = x.size * w % 2 ^ 64; prc = p; ptr = x.address } ∷ outs)

-- The loop of the overloads with known receivers: the size is the number of elements.
unfoldable pub element_messages : List ℕ → List Elements → Option (List Outgoing)
element_messages [] sent = some []
element_messages (p ∷ ps) [] = none
element_messages (p ∷ ps) (x ∷ xs) = element_messages ps xs >>= λ outs.
    some (record { sz = x.size; prc = p; ptr = x.address } ∷ outs)

module _ {U : Type 0} where
  -- ptr_send and sz_send are arrays of NQUEUE entries, too.
  unfoldable pub sync_unknown_vectors :
      Mpi → ℕ → List ℕ → List Elements → MsgAlloc U → ℕ → List Poll → Nbx U → Option (Nbx U)
  unfolding data_messages
  sync_unknown_vectors m w prc sent alloc arg polls s =
      if leb nqueue s.queued
      then none
      else data_messages w prc sent >>= λ outs. sync_unknown m outs alloc arg polls s

  unfoldable pub async_unknown_vectors :
      ℕ → List ℕ → List Elements → MsgAlloc U → ℕ → Nbx U → Option (Nbx U)
  unfolding data_messages
  async_unknown_vectors w prc sent alloc arg s =
      if leb nqueue s.queued
      then none
      else data_messages w prc sent >>= λ outs. async_unknown outs alloc arg s

  unfoldable pub sync_known_vectors :
      List ℕ → List Elements → List ℕ → List ℕ → MsgAlloc U → ℕ → List ℕ → Nbx U → Option (Nbx U)
  unfolding element_messages
  sync_known_vectors prc sent prc_recv recv_sz alloc arg vs s =
      element_messages prc sent >>= λ outs.
      with_sizes prc_recv recv_sz >>= λ ins. sync_known outs ins alloc arg vs s

  unfoldable pub async_known_vectors :
      List ℕ → List Elements → List ℕ → List ℕ → MsgAlloc U → ℕ → Nbx U → Option (Nbx U)
  unfolding element_messages
  async_known_vectors prc sent prc_recv recv_sz alloc arg s =
      if leb nqueue s.queued
      then some (note (complain queue_full) (enqueue s))
      else element_messages prc sent >>= λ outs.
          with_sizes prc_recv recv_sz >>= λ ins. some (async_known outs ins alloc arg s)

-- The bytes of the vectors together
abbrev pub all_bytes : ℕ → List Elements → ℕ
all_bytes w [] = 0
all_bytes w (x ∷ xs) = x.size * w + all_bytes w xs

-- A message from each vector, to the process at its place, of `w` bytes for each element
abbrev pub messages_to : ℕ → List ℕ → List Elements → List Outgoing
messages_to w [] sent = []
messages_to w (p ∷ ps) [] = []
messages_to w (p ∷ ps) (x ∷ xs) =
    record { sz = x.size * w; prc = p; ptr = x.address } ∷ messages_to w ps xs

-- For vectors of elements of `w` bytes that all fit in the address space together, one for each
-- process: the overloads with unknown receivers send each process its vector, from the address of
-- its elements, with all bytes of it; those with known receivers send it as many bytes, from
-- the same address, as the vector has elements.
pub vectors_messages :
    (w : ℕ) (prc : List ℕ) (sent : List Elements)
    → length prc ≡ length sent
    → all_bytes w sent < 2 ^ 64
    → (data_messages w prc sent ≡ some (messages_to w prc sent))
      × (element_messages prc sent ≡ some (messages_to 1 prc sent))
unfolding data_messages element_messages
vectors_messages w [] [] e h = (refl, refl)
vectors_messages w (p ∷ ps) (x ∷ xs) e h =
    let (q, q') = vectors_messages w ps xs (omega (arith, e)) (omega (arith, h)) in
    let fits : x.size * w % 2 ^ 64 ≡ x.size * w = omega (arith, h) in
    let one : x.size ≡ x.size * 1 = omega arith in
    (
      rw q
          (ap (λ n. some (record { sz = n; prc = p; ptr = x.address } ∷ messages_to w ps xs)) fits),
      rw q'
          (ap (λ n. some (record { sz = n; prc = p; ptr = x.address } ∷ messages_to 1 ps xs)) one),
    )
vectors_messages w [] (x ∷ xs) e h = absurd (omega (arith, e))
vectors_messages w (p ∷ ps) [] e h = absurd (omega (arith, e))
