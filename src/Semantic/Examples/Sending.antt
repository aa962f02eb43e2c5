-- ===== src/Semantic/Examples/Sending.antt =====
-- The statements on the calls SSendRecv, SScatter and SGather, at a process with nothing under way.
use mathlib.Core.List.{Pairwise, Perm}
use openfpm_vcluster.Prelude.{
  ℕ, ◌+◌, ◌≡◌, refl, sym, true, ◌++◌, Option, none, some, List, [], ◌∷◌, update, ◌>>=◌, arith,
}
use openfpm_vcluster.Wire.Platform.{usual_mpi}
use openfpm_vcluster.Nbx.State.{Nbx}
use openfpm_vcluster.Nbx.Post.{
  queue_all_sends, queue_sends, queue_send, mark_base, async_unknown, async_known,
}
use openfpm_vcluster.Nbx.Wait.{Answers, with_sizes}
use openfpm_vcluster.Nbx.Examples.{two_rounds, two_rounds-Enough}
use openfpm_vcluster.Semantic.Reorder.{Buffer}
use openfpm_vcluster.Semantic.Reorder.Order.{Arrival, NotAfter, bufs_of, procs_of, sizes_of}
use openfpm_vcluster.Semantic.Alloc.{Memory, set_info, reset_recv_buf}
use openfpm_vcluster.Semantic.Pack.{
  linear, Vector, direct, construct_prc, request_all, pack_all, messages,
}
use openfpm_vcluster.Semantic.Pack.Sending.{all_outgoing, messages-pack_all}
use openfpm_vcluster.Semantic.Pack.Unpack.{Unpacking, View, process_receive_buffer}
use openfpm_vcluster.Semantic.Send.{
  Vcluster, Request, packed_of, prepare_send_buffer, fill_and_post, post_sends, known_bytes,
  ssend_recv, ssend_recv_async, ssend_recv_wait,
}
use openfpm_vcluster.Semantic.Send.Cells.{cell-none}
use openfpm_vcluster.Semantic.Send.Fifo.{Outstanding, called, react_all, Represents}
use openfpm_vcluster.Semantic.Send.Refines.{stop, step, async, run-react_all}
use openfpm_vcluster.Semantic.Send.Halves.{async_wait-ssend_recv}
use openfpm_vcluster.Semantic.Send.Known.{known_call-Elsewhere}
use openfpm_vcluster.Semantic.Send.Starting.{IsIdle, messages_of}
use openfpm_vcluster.Semantic.Send.Exchanging.{ssend_recv-returns}
use openfpm_vcluster.Semantic.Collect.{values, scatter_messages, s_gather}
use openfpm_vcluster.Semantic.Collect.Root.{gathered, s_gather-root}
use openfpm_vcluster.Semantic.Collect.Start.{polling}
use openfpm_vcluster.Semantic.Alloc.Hearing.{heard_all}
use openfpm_vcluster.Semantic.Delivery.Contents.{carrying}
use openfpm_vcluster.Nbx.Progress.{Poll}
use openfpm_vcluster.Semantic.Collect.Chunks.{chunks_at, all_read, scatter_messages-chunks}
use openfpm_vcluster.Semantic.Examples.{insertion_sort, insertion_sort-IsSort}
use openfpm_vcluster.Semantic.Examples.Exchange.{expecting, expecting_slot}

abbrev pub quiet : Vcluster
quiet = record {
  nbx = record expecting { queued = 0; slots = λ j. expecting_slot };
  scnt = 0;
  pcnt = 0;
  mem = λ j. none;
}

pub quiet-IsIdle : IsIdle quiet
quiet-IsIdle = record {
  scnt = refl;
  pcnt = refl;
  queued = refl;
  cycle = omega arith;
  active = λ j. refl;
}

-- A vector of two elements of two bytes, to process 5; the caller's vector has number 7.
abbrev pub two_elements : Vector
two_elements = record {
  size = 2;
  columns = record { address = 100; bytes = 1 ∷ 2 ∷ 3 ∷ 4 ∷ [] } ∷ [];
}

abbrev pub to_five : Request
to_five = record {
  layout = linear 2;
  send = direct (linear 2) two_elements ∷ [];
  prc_send = 5 ∷ [];
  prc_recv = 7;
  sz_recv = [];
  opt = 1;
  value_size = some 2;
  base = 900;
}

abbrev pub answers : Answers
answers = record { polls = two_rounds; sizes = λ j. []; contents = λ j. [] }

abbrev pub count : ℕ → ℕ
count n = n

abbrev pub add_view : ℕ → View → ℕ → ℕ
add_view i v n = n + v.size

abbrev pub unpack_elements : List Buffer → Unpacking ℕ → Option (Unpacking ℕ)
unpack_elements = process_receive_buffer count add_view (linear 2) 1

abbrev pub nothing_yet : Unpacking ℕ
nothing_yet = record { recv = 0; sz = some []; sz_byte = none }

pub to_five-messages : messages_of to_five ≡ some (all_outgoing (5 ∷ []) (two_elements ∷ []))
to_five-messages =
    (messages-pack_all (linear 2) (5 ∷ []) (two_elements ∷ []) (record { base = 900; written = [] })
      refl ((refl, tt), tt)).0

ssend_recv-returns_example :
    (n : Nbx Memory) × (rounds : List Poll) × (last : Poll) × (rest : List Poll) × (bs : List
      Arrival)
    × (t : Vcluster) × (v : Unpacking ℕ) × (fill_and_post to_five quiet ≡ some n)
    × (two_rounds ≡ rounds ++ last ∷ rest)
    × (last.barrier_done ≡ true)
    × Perm bs (carrying [] (heard_all usual_mpi (rounds ++ last ∷ []) n 0))
    × Pairwise NotAfter bs
    × (ssend_recv usual_mpi insertion_sort unpack_elements to_five answers nothing_yet quiet
        ≡ some (t, v))
    × (unpack_elements (bufs_of bs) nothing_yet ≡ some v)
    × (t.nbx.mem.prc 7 ≡ procs_of bs)
    × (t.mem 0 ≡ none)
    × IsIdle t
unfolding process_receive_buffer
ssend_recv-returns_example =
    ssend_recv-returns usual_mpi insertion_sort insertion_sort-IsSort unpack_elements nothing_yet
      to_five answers quiet (all_outgoing (5 ∷ []) (two_elements ∷ [])) quiet-IsIdle refl refl
      to_five-messages two_rounds-Enough (λ bufs. (_, refl))

async_wait-ssend_recv_example :
    (ssend_recv_async to_five quiet >>= λ t.
    ssend_recv_wait usual_mpi insertion_sort unpack_elements 7 answers nothing_yet t)
    ≡ ssend_recv usual_mpi insertion_sort unpack_elements to_five answers nothing_yet quiet
async_wait-ssend_recv_example =
    async_wait-ssend_recv usual_mpi insertion_sort unpack_elements to_five answers nothing_yet quiet
      refl refl

-- Nothing is outstanding.
abbrev nothing_held : Outstanding
nothing_held = record { made = 0; held = [] }

quiet-Represents : Represents nothing_held quiet
quiet-Represents = record {
  made = refl;
  bound = omega arith;
  count = refl;
  idle = λ e. refl;
  mem = λ j. sym (cell-none 0 j);
}

abbrev one_call : Vcluster
one_call = elim (ssend_recv_async to_five quiet) [ none ↦ quiet | some t ↦ t ]

called_once : ssend_recv_async to_five quiet ≡ some one_call
unfolding ssend_recv_async prepare_send_buffer fill_and_post post_sends request_all pack_all
    construct_prc messages async_unknown queue_all_sends queue_sends queue_send mark_base
called_once = refl

run-react_all_example :
    (p : Outstanding) × (react_all (called (packed_of to_five) ∷ []) nothing_held ≡ some p)
    × Represents p one_call
run-react_all_example =
    run-react_all usual_mpi insertion_sort unpack_elements (called (packed_of to_five) ∷ [])
      nothing_held quiet one_call quiet-Represents (step (async to_five called_once) stop)

-- A second call, which knows that process 2 sends it one element
abbrev from_two : Request
from_two = record to_five { prc_recv = 8; sz_recv = 1 ∷ []; opt = 12 }

abbrev second : Vcluster
second = record one_call {
  nbx = record one_call.nbx {
    mem = record one_call.nbx.mem { prc = update one_call.nbx.mem.prc 8 (2 ∷ []) };
  };
}

abbrev two_calls : Vcluster
two_calls = elim (ssend_recv_async from_two second) [ none ↦ quiet | some t ↦ t ]

called_twice : ssend_recv_async from_two second ≡ some two_calls
unfolding ssend_recv_async prepare_send_buffer fill_and_post post_sends request_all pack_all
    construct_prc messages async_unknown queue_all_sends queue_sends queue_send mark_base
    async_known with_sizes known_bytes set_info reset_recv_buf
called_twice = refl

known_call-Elsewhere_example : two_calls.nbx.mem.recv_buf 1 ≡ []
unfolding ssend_recv_async prepare_send_buffer fill_and_post post_sends request_all pack_all
    construct_prc messages async_unknown queue_all_sends queue_sends queue_send mark_base set_info
known_call-Elsewhere_example =
    known_call-Elsewhere from_two second two_calls (omega arith) refl refl refl called_twice

-- Chunks of two elements and of one, of a vector of four elements of two bytes
abbrev eight_bytes : Buffer
eight_bytes = 1 ∷ 2 ∷ 3 ∷ 4 ∷ 5 ∷ 6 ∷ 7 ∷ 8 ∷ []

scatter_messages-chunks_example :
    (scatter_messages 2 100 (0 ∷ 1 ∷ []) (2 ∷ 1 ∷ [])
      ≡ some (chunks_at 2 100 (0 ∷ 1 ∷ []) (2 ∷ 1 ∷ [])))
    × (all_read 100 eight_bytes (chunks_at 2 100 (0 ∷ 1 ∷ []) (2 ∷ 1 ∷ []))
        ≡ 1 ∷ 2 ∷ 3 ∷ 4 ∷ 5 ∷ 6 ∷ [])
scatter_messages-chunks_example =
    scatter_messages-chunks 2 100 eight_bytes (0 ∷ 1 ∷ []) (2 ∷ 1 ∷ []) (omega arith) (omega arith)
      refl

s_gather-root_example :
    (n : Nbx Memory) × (bs : List Arrival) × (v : Unpacking ℕ) × (rounds : List Poll)
    × (last : Poll) × (rest : List Poll) × (s_gather usual_mpi 0 0 7 8 unpack_elements
          insertion_sort
          (linear 2)
          (direct (linear 2) two_elements)
          900
          (λ u. u)
          2
          answers
          nothing_yet
          quiet
        ≡ some (
          gathered usual_mpi 0 0 7 8 unpack_elements insertion_sort insertion_sort-IsSort 2 answers
              bs
              (values v.sz)
              n
              quiet,
          v,
        ))
    × (unpack_elements (bufs_of bs) (record nothing_yet { sz = some (sizes_of bs); sz_byte = none })
        ≡ some v)
    × Perm bs (carrying [] (heard_all usual_mpi (rounds ++ last ∷ []) (polling 7 8 quiet) 0))
    × (two_rounds ≡ rounds ++ last ∷ rest)
    × (last.barrier_done ≡ true)
    × Pairwise NotAfter bs
    × (n.queued ≡ 0)
unfolding process_receive_buffer
s_gather-root_example =
    s_gather-root usual_mpi 0 0 7 8 unpack_elements insertion_sort insertion_sort-IsSort (linear 2)
      (direct (linear 2) two_elements) 900 (λ u. u) 2 answers nothing_yet quiet refl quiet-IsIdle
      refl refl two_rounds-Enough (λ bufs w. (_, refl))
