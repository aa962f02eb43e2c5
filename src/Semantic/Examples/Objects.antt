-- ===== src/Semantic/Examples/Objects.antt =====
-- A whole exchange of serialized objects: processes 1 and 4 send lists of numbers to process 5.
use mathlib.Core.List.{Perm}
use mathlib.Core.List.Permᴰ
use openfpm_vcluster.Prelude.{
  ℕ, suc, ◌≡◌, refl, sym, ap, subst, false, none, some, List, [], ◌∷◌, ◌++◌, map, length, take,
  arith,
}
use openfpm_vcluster.Wire.{probe_size}
use openfpm_vcluster.Wire.Platform.{usual_mpi, usual_mpi-IsStandard}
use openfpm_vcluster.Nbx.Progress.{Poll}
use openfpm_vcluster.Nbx.Wait.{Answers}
use openfpm_vcluster.Nbx.Completion.{Enough, none_needed, other_round, final_round}
use openfpm_vcluster.Nbx.Examples.{final_poll, final_poll-IsFinal}
use openfpm_vcluster.Semantic.Reorder.{Buffer}
use openfpm_vcluster.Semantic.Pack.{Serial}
use openfpm_vcluster.Semantic.Pack.RoundTrip.{prepared}
use openfpm_vcluster.Semantic.Pack.Unpack.{Unpacking, process_serial_buffer}
use openfpm_vcluster.Semantic.Pack.Network.{all_posted, posted_to}
use openfpm_vcluster.Semantic.Pack.Serials.{Serializer, serial_posting, merge_objects}
use openfpm_vcluster.Semantic.Send.{Vcluster, ssend_recv}
use openfpm_vcluster.Semantic.Send.Starting.{IsIdle}
use openfpm_vcluster.Semantic.Send.Shown.{shown, delivered}
use openfpm_vcluster.Semantic.Send.Serials.{Serializes, ssend_recv-merge_objects}
use openfpm_vcluster.Semantic.Send.Merging.{ShowsAll}
use openfpm_vcluster.Semantic.Examples.{insertion_sort, insertion_sort-IsSort}
use openfpm_vcluster.Semantic.Examples.Merging.{showing, last_only, receiving, receiving-messages}
use openfpm_vcluster.Semantic.Examples.Sending.{quiet, quiet-IsIdle}

-- A list is packed as its length and its elements.
abbrev pack_list : List ℕ → Serial
pack_list xs = record { request = suc (length xs); packed = length xs ∷ xs }

abbrev unpack_list : Buffer → List ℕ
unpack_list [] = []
unpack_list (n ∷ b) = take n b

unpack-pack : (xs : List ℕ) → take (length xs) xs ≡ xs
unpack-pack [] = refl
unpack-pack (x ∷ xs) = ap (λ ys. x ∷ ys) (unpack-pack xs)

abbrev append_list : ℕ → List ℕ → List ℕ → List ℕ
append_list i xs recv = recv ++ xs

abbrev sender : ℕ → Serializer (List ℕ)
sender p = record {
  rank = p;
  cnt = 3;
  position = 0;
  prc_send = 5 ∷ 6 ∷ 5 ∷ [];
  send = (7 ∷ p ∷ []) ∷ (1 ∷ []) ∷ [] ∷ [];
  base = 100;
}

abbrev senders : List (Serializer (List ℕ))
senders = sender 1 ∷ sender 4 ∷ []

abbrev busy_rounds : List Poll
busy_rounds = showing 4 0 3 ∷ showing 4 2 1 ∷ showing 1 0 3 ∷ showing 1 2 1 ∷ []

abbrev bytes_written : ℕ → List (List ℕ)
bytes_written j = (2 ∷ 7 ∷ 4 ∷ []) ∷ (0 ∷ []) ∷ (2 ∷ 7 ∷ 1 ∷ []) ∷ (0 ∷ []) ∷ []

abbrev answers : Answers
answers = record {
  polls = busy_rounds ++ final_poll ∷ [];
  sizes = λ j. [];
  contents = bytes_written;
}

abbrev nothing_yet : Unpacking (List ℕ)
nothing_yet = record { recv = []; sz = some []; sz_byte = none }

one_byte : probe_size usual_mpi 1 ≡ some (record { big_data = false; msize = 1 })
unfolding probe_size
one_byte = refl

three_bytes : probe_size usual_mpi 3 ≡ some (record { big_data = false; msize = 3 })
unfolding probe_size
three_bytes = refl

answers-Enough : Enough usual_mpi 1 answers.polls
answers-Enough =
    other_round _ (_, three_bytes)
      (other_round _ (_, one_byte)
        (other_round _ (_, three_bytes)
          (other_round _ (_, one_byte)
            (final_round final_poll final_poll-IsFinal (none_needed [])))))

answers-ShowsAll : ShowsAll answers (all_posted 5 (map (serial_posting pack_list) senders))
answers-ShowsAll rounds last rest e b =
    let first = posted_to 5 (serial_posting pack_list (sender 1)) in
    let second = posted_to 5 (serial_posting pack_list (sender 4)) in
    subst
      (λ ps.
        Perm (delivered (shown ps) (answers.contents 0))
          (all_posted 5 (map (serial_posting pack_list) senders)))
      (sym (last_only busy_rounds (refl, (refl, (refl, (refl, tt)))) rounds last rest e b))
      ∣ Permᴰ.append_comm second first ∣₁

sender-Serializes : (p : ℕ) → Serializes pack_list 3 (sender p)
sender-Serializes p = (refl, refl, omega arith, (omega arith, (omega arith, (omega arith, tt))))

ssend_recv-merge_objects_example :
    (t : Vcluster) × (ssend_recv usual_mpi insertion_sort
        (λ bs v. some (process_serial_buffer length unpack_list append_list bs v))
        receiving
        answers
        nothing_yet
        quiet
      ≡ some (
        t,
        merge_objects pack_list length unpack_list append_list 0
            ((7 ∷ 1 ∷ []) ∷ [] ∷ (7 ∷ 4 ∷ []) ∷ [] ∷ [])
            (prepared 4 nothing_yet),
      ))
    × (t.nbx.mem.prc 7 ≡ 1 ∷ 1 ∷ 4 ∷ 4 ∷ [])
    × (t.mem 0 ≡ none)
    × IsIdle t
ssend_recv-merge_objects_example =
    ssend_recv-merge_objects usual_mpi usual_mpi-IsStandard insertion_sort insertion_sort-IsSort
      length pack_list unpack_list append_list 5 senders receiving answers nothing_yet quiet []
      unpack-pack (omega arith, (omega arith, tt)) (sender-Serializes 1, (sender-Serializes 4, tt))
      (omega arith) quiet-IsIdle refl refl receiving-messages answers-Enough answers-ShowsAll
