-- ===== src/Semantic/Examples/KnownCalls.antt =====
-- The statements on calls with known senders and numbers of elements, at a process that exchanges vectors
-- with processes 5 and 3.
use mathlib.Core.List.{Pairwise, Perm}
use openfpm_vcluster.Prelude.{ℕ, ◌≡◌, refl, Option, none, some, List, [], ◌∷◌, map, arith}
use openfpm_vcluster.Wire.Platform.{usual_mpi}
use openfpm_vcluster.Nbx.Post.{async_known}
use openfpm_vcluster.Nbx.Wait.{Answers}
use openfpm_vcluster.Semantic.Reorder.{Buffer}
use openfpm_vcluster.Semantic.Reorder.Order.{Arrival, NotAfter, bufs_of, procs_of}
use openfpm_vcluster.Semantic.Alloc.{msg_alloc_known}
use openfpm_vcluster.Semantic.Delivery.Contents.{carrying}
use openfpm_vcluster.Semantic.Pack.{linear, Vector, direct, construct_prc}
use openfpm_vcluster.Semantic.Pack.Sending.{all_outgoing, messages-pack_all}
use openfpm_vcluster.Semantic.Pack.Unpack.{Unpacking, process_receive_buffer}
use openfpm_vcluster.Semantic.Send.{Vcluster, Request, prepare_send_buffer, ssend_recv}
use openfpm_vcluster.Semantic.Send.Starting.{IsIdle, posted}
use openfpm_vcluster.Semantic.Send.KnownExchange.{
  beside, known_memory, known_messages_of, expected, ssend_recv-known,
}
use openfpm_vcluster.Semantic.Send.KnownPairing.{known_call-misplaced}
use openfpm_vcluster.Semantic.Examples.{insertion_sort, insertion_sort-IsSort}
use openfpm_vcluster.Semantic.Examples.Packing.{
  two_widths, first_vector, second_vector, two_vectors, two_vectors-IsVector,
}
use openfpm_vcluster.Semantic.Examples.Sending.{quiet, count, add_view, nothing_yet}

-- The caller's vector, of number 7, names the senders.
abbrev knowing : Vcluster
knowing = record quiet {
  nbx = record quiet.nbx { mem = record quiet.nbx.mem { prc = λ j. 5 ∷ 3 ∷ [] } };
}

knowing-IsIdle : IsIdle knowing
knowing-IsIdle = record {
  scnt = refl;
  pcnt = refl;
  queued = refl;
  cycle = omega arith;
  active = λ j. refl;
}

-- A vector of two elements of two bytes, to process 5; from each process one element of two bytes
abbrev two_elements : Vector
two_elements = record {
  size = 2;
  columns = record { address = 100; bytes = 1 ∷ 2 ∷ 3 ∷ 4 ∷ [] } ∷ [];
}

abbrev from_both : Request
from_both = record {
  layout = linear 2;
  send = direct (linear 2) two_elements ∷ [];
  prc_send = 5 ∷ [];
  prc_recv = 7;
  sz_recv = 1 ∷ 1 ∷ [];
  opt = 12;
  value_size = some 2;
  base = 900;
}

abbrev answers : Answers
answers = record { polls = []; sizes = λ j. []; contents = λ j. (7 ∷ 8 ∷ []) ∷ (9 ∷ 9 ∷ []) ∷ [] }

abbrev unpack_elements : List Buffer → Unpacking ℕ → Option (Unpacking ℕ)
unpack_elements = process_receive_buffer count add_view (linear 2) 1

from_both-messages : known_messages_of from_both ≡ some (all_outgoing (5 ∷ []) (two_elements ∷ []))
unfolding construct_prc
from_both-messages =
    (messages-pack_all (linear 2) (5 ∷ []) (two_elements ∷ []) (record { base = 900; written = [] })
      refl ((refl, tt), tt)).0

ssend_recv-known_example :
    (t : Vcluster) × (v : Unpacking ℕ) × (bs : List Arrival) × (ssend_recv usual_mpi insertion_sort
        unpack_elements from_both answers nothing_yet knowing
      ≡ some (t, v))
    × (unpack_elements (bufs_of bs) nothing_yet ≡ some v)
    × Perm bs (carrying ((7 ∷ 8 ∷ []) ∷ (9 ∷ 9 ∷ []) ∷ []) (expected from_both 2 knowing))
    × Pairwise NotAfter bs
    × (t.nbx.mem.prc 7 ≡ procs_of bs)
    × (t.mem 0 ≡ none)
    × IsIdle t
unfolding process_receive_buffer
ssend_recv-known_example =
    ssend_recv-known usual_mpi insertion_sort insertion_sort-IsSort unpack_elements nothing_yet
      from_both answers knowing (all_outgoing (5 ∷ []) (two_elements ∷ [])) 2 knowing-IsIdle refl
      refl refl refl refl from_both-messages (λ bufs. (_, refl))

-- Two vectors with their properties apart, to processes 5 and 3
abbrev apart : Request
apart = record from_both {
  layout = two_widths;
  send = map (direct two_widths) two_vectors;
  prc_send = 5 ∷ 3 ∷ [];
  value_size = some 3;
}

known_call-misplaced_example :
    prepare_send_buffer apart knowing
    ≡ some (
        posted apart knowing (
          async_known
            (record { sz = 2; prc = 5; ptr = 100 } ∷ record { sz = 4; prc = 3; ptr = 200 } ∷ [])
            (beside (5 ∷ 3 ∷ []) (3 ∷ 3 ∷ []))
            msg_alloc_known
            0
            (record knowing.nbx { mem = known_memory apart 3 knowing.nbx.mem })))
known_call-misplaced_example =
    known_call-misplaced apart knowing two_widths 3 5 3 [] first_vector (second_vector ∷ [])
      (record { address = 100; bytes = 1 ∷ 2 ∷ [] })
      (record { address = 200; bytes = 3 ∷ 4 ∷ 5 ∷ 6 ∷ [] }) [] knowing-IsIdle refl refl refl refl
      refl refl refl two_vectors-IsVector (omega arith) refl
