-- ===== src/Semantic/Examples/Packing.antt =====
-- The statements on packing and unpacking, at two small vectors.

use openfpm_vcluster.Prelude.{
  ℕ, ◌+◌, ◌≡◌, refl, none, some, List, [], ◌∷◌, map, length, All, ◌==◌, if◌then◌else◌,
}
use openfpm_vcluster.Semantic.Reorder.{Buffer}
use openfpm_vcluster.Semantic.Pack.{
  Layout, interleaved, Vector, direct, serial, Serial, construct_prc, PackMem, request_all,
  pack_all, messages,
}
use openfpm_vcluster.Semantic.Pack.Sending.{IsVector, all_outgoing, messages-pack_all}
use openfpm_vcluster.Semantic.Pack.Serializing.{all_packed, placed, messages-serial}
use openfpm_vcluster.Semantic.Pack.Unpack.{Unpacking, View}
use openfpm_vcluster.Semantic.Pack.Network.{Sender}
use openfpm_vcluster.Semantic.Pack.InOrder.{IsSender}

-- Two vectors whose elements have properties of one and of two bytes
abbrev pub two_widths : Layout
two_widths = interleaved (1 ∷ 2 ∷ [])

abbrev pub first_vector : Vector
first_vector = record {
  size = 2;
  columns =
      record { address = 100; bytes = 1 ∷ 2 ∷ [] }
      ∷ record { address = 200; bytes = 3 ∷ 4 ∷ 5 ∷ 6 ∷ [] }
      ∷ [];
}

abbrev pub second_vector : Vector
second_vector = record {
  size = 1;
  columns =
      record { address = 300; bytes = 7 ∷ [] } ∷ record { address = 400; bytes = 8 ∷ 9 ∷ [] } ∷ [];
}

abbrev pub two_vectors : List Vector
two_vectors = first_vector ∷ second_vector ∷ []

pub two_vectors-IsVector : All (IsVector two_widths) two_vectors
two_vectors-IsVector = ((refl, (refl, tt)), ((refl, (refl, tt)), tt))

abbrev no_bytes : PackMem
no_bytes = record { base = 0; written = [] }

messages-pack_all_example :
    let sizes = request_all (map (direct two_widths) two_vectors) (0, []) in
    let packed = pack_all (map (direct two_widths) two_vectors) (no_bytes, []) in
    (messages (construct_prc two_widths (5 ∷ 6 ∷ [])) sizes.1 packed.1
      ≡ some (all_outgoing (5 ∷ 6 ∷ []) two_vectors))
    × (packed.0 ≡ no_bytes)
messages-pack_all_example =
    messages-pack_all two_widths (5 ∷ 6 ∷ []) two_vectors no_bytes refl two_vectors-IsVector

abbrev two_objects : List Serial
two_objects =
    record { request = 3; packed = 1 ∷ 2 ∷ 3 ∷ [] } ∷ record { request = 1; packed = 4 ∷ [] } ∷ []

messages-serial_example :
    let sizes = request_all (map serial two_objects) (0, []) in
    let packed = pack_all (map serial two_objects) (record { base = 700; written = [] }, []) in
    (messages (5 ∷ 6 ∷ []) sizes.1 packed.1 ≡ some (placed 700 (5 ∷ 6 ∷ []) two_objects))
    × (packed.0.written ≡ all_packed two_objects)
    × (sizes.0 ≡ length packed.0.written)
messages-serial_example = messages-serial (5 ∷ 6 ∷ []) two_objects 700 refl (refl, (refl, tt))

-- Objects that are numbers of elements, to which a merge adds
abbrev count : ℕ → ℕ
count n = n

abbrev add_view : ℕ → View → ℕ → ℕ
add_view i v n = n + v.size

-- Processes 1 and 4 send the first vector to process 5, and the second to process 6; a piece of
-- memory is at its address.
abbrev pub contents : ℕ → ℕ → Buffer
contents a n =
    if a == 100
    then 1 ∷ 2 ∷ []
    else if a == 200
    then 3 ∷ 4 ∷ 5 ∷ 6 ∷ []
    else if a == 300
    then 7 ∷ []
    else 8 ∷ 9 ∷ []

abbrev pub sender : ℕ → Sender
sender p = record {
  rank = p;
  cnt = 3;
  position = 0;
  prc_send = 5 ∷ 6 ∷ [];
  send = two_vectors;
  read = contents;
}

abbrev pub senders : List Sender
senders = sender 1 ∷ sender 4 ∷ []

pub sender-IsSender : (p : ℕ) → IsSender two_widths (sender p)
sender-IsSender p = (two_vectors-IsVector, ((refl, (refl, tt)), ((refl, (refl, tt)), tt)))

-- The messages of process 4 arrive first.
abbrev pub late_first : List Sender
late_first = sender 4 ∷ sender 1 ∷ []

abbrev nothing_yet : Unpacking ℕ
nothing_yet = record { recv = 0; sz = some []; sz_byte = none }
