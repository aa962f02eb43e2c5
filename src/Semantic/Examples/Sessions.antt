-- ===== src/Semantic/Examples/Sessions.antt =====
-- The statements on the variants of SSendRecv and on a process from its construction on.
use openfpm_vcluster.Prelude.{ℕ, ◌≡◌, refl, none, some, [], ◌∷◌, ◌>>=◌, arith}
use openfpm_vcluster.Wire.Platform.{usual_mpi}
use openfpm_vcluster.Nbx.Examples.{two_rounds-Enough}
use openfpm_vcluster.Semantic.Pack.{linear}
use openfpm_vcluster.Semantic.Pack.Sending.{all_outgoing}
use openfpm_vcluster.Semantic.Pack.Unpack.{Unpacking, process_receive_buffer}
use openfpm_vcluster.Semantic.Send.{
  Vcluster, ssend_recv_p, ssend_recv_p_op, ssend_recv_p_wait, ssend_recv_p_op_wait,
}
use openfpm_vcluster.Semantic.Send.Starting.{IsIdle}
use openfpm_vcluster.Semantic.Send.Variants.{
  ssend_recv_p_sizes, ssend_recv_p_sizes_wait, overloads_agree,
}
use openfpm_vcluster.Semantic.Send.Session.{
  Exchange, CanEnd, construct_vcluster, session, session-returns,
}
use openfpm_vcluster.Semantic.Examples.{insertion_sort, insertion_sort-IsSort}
use openfpm_vcluster.Semantic.Examples.Exchange.{own_vectors, expecting_slot}
use openfpm_vcluster.Semantic.Examples.Sending.{
  quiet, count, add_view, nothing_yet, to_five, to_five-messages, two_elements, answers,
  unpack_elements,
}

overloads_agree_example :
    let unpack = process_receive_buffer count add_view (linear 2) 1 in
    let sync = ssend_recv_p usual_mpi insertion_sort unpack to_five answers 0 [] quiet in
    let wait = ssend_recv_p_wait usual_mpi insertion_sort unpack 7 answers 0 [] [] quiet in
    (ssend_recv_p_sizes usual_mpi insertion_sort unpack to_five answers 0 quiet
      ≡ (sync >>= λ x. some (x.0, record x.1 { sz_byte = none })))
    × (ssend_recv_p_op usual_mpi insertion_sort unpack to_five answers 0 quiet
        ≡ (sync >>= λ x. some (x.0, record x.1 { sz = none; sz_byte = none })))
    × (ssend_recv_p_sizes_wait usual_mpi insertion_sort unpack 7 answers 0 [] quiet
        ≡ (wait >>= λ x. some (x.0, record x.1 { sz_byte = none })))
    × (ssend_recv_p_op_wait usual_mpi insertion_sort unpack 7 answers 0 quiet
        ≡ (wait >>= λ x. some (x.0, record x.1 { sz = none; sz_byte = none })))
overloads_agree_example =
    overloads_agree usual_mpi insertion_sort count add_view (linear 2) 1 to_five 7 answers 0 [] []
      quiet

abbrev one_call : Exchange
one_call = record { request = to_five; answers = answers }

one_call-CanEnd : CanEnd usual_mpi one_call
one_call-CanEnd = record {
  unknown = refl;
  no_sizes = refl;
  outs = all_outgoing (5 ∷ []) (two_elements ∷ []);
  messages = to_five-messages;
  enough = two_rounds-Enough;
}

session-returns_example :
    (t : Vcluster) × (v : Unpacking ℕ) × (session usual_mpi insertion_sort unpack_elements
        (one_call ∷ one_call ∷ [])
        nothing_yet
        (construct_vcluster (some 2147483647) (λ j. expecting_slot) 0 0 own_vectors)
      ≡ some (t, v))
    × IsIdle t
unfolding process_receive_buffer
session-returns_example =
    session-returns usual_mpi insertion_sort unpack_elements insertion_sort-IsSort (some 2147483647)
      (λ j. expecting_slot) 0 0 own_vectors (one_call ∷ one_call ∷ []) nothing_yet (omega arith)
      (one_call-CanEnd, (one_call-CanEnd, tt)) (λ bufs w. (_, refl))
