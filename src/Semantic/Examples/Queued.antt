-- ===== src/Semantic/Examples/Queued.antt =====
-- The statement on waits for several queued exchanges, at a small queue.
use openfpm_vcluster.Prelude.{
  ℕ, ◌++◌, ◌<◌, ◌≡◌, ◌≢◌, refl, sym, false, some, true, List, [], ◌∷◌, if◌then◌else◌, arith, leb,
  ◌∙◌,
}
use openfpm_vcluster.Wire.Platform.{usual_mpi}
use openfpm_vcluster.Tags.{sparse_tag}
use openfpm_vcluster.Nbx.State.{Nbx, nbx_unknown, nbx_known_prc}
use openfpm_vcluster.Nbx.Progress.{Poll, ignores}
use openfpm_vcluster.Nbx.Wait.{Answers, nbx_wait}
use openfpm_vcluster.Nbx.Completion.{Enough, other_round}
use openfpm_vcluster.Nbx.Examples.{busy_poll, sixteen_bytes}
use openfpm_vcluster.Nbx.Examples.Waits.{four_rounds, four_rounds-Enough}
use openfpm_vcluster.Semantic.Alloc.{Memory}
use openfpm_vcluster.Semantic.Alloc.Growth.{info_at, Received}
use openfpm_vcluster.Semantic.Alloc.Hearing.{heard_all}
use openfpm_vcluster.Semantic.Delivery.{Delivered}
use openfpm_vcluster.Semantic.Delivery.Several.{nbx_wait-delivers}
use openfpm_vcluster.Semantic.Examples.{insertion_sort, insertion_sort-IsSort}
use openfpm_vcluster.Semantic.Examples.Exchange.{expecting_slot, expecting}

-- Position 0 and position 1 await the messages of an exchange each.
abbrev expecting_two : Nbx Memory
expecting_two = record expecting {
  queued = 2;
  slots = λ j.
      if leb 2 j
      then expecting_slot
      else record expecting_slot { active = nbx_unknown; ptr_arg = j };
}

first_two : (j : ℕ) → ignores (expecting_two.slots j).active ≡ false → leb 2 j ≡ false
first_two j a = grind arith

own_argument :
    (j : ℕ) → ignores (expecting_two.slots j).active ≡ false → (expecting_two.slots j).ptr_arg ≡ j
own_argument j a = rw (first_two j a) refl

expecting_two-Received : Received (λ j. []) expecting_two
expecting_two-Received = record {
  own = record {
    buffers = λ j a. rw (first_two j a) refl;
    sizes = λ j k a b e. sym (own_argument j a) ∙ e ∙ own_argument k b;
    tags = λ j k a b e. sym (own_argument j a) ∙ e ∙ own_argument k b;
    callers = λ j k a b e. omega (arith, own_argument j a, own_argument k b, e);
  };
  slot = λ j a. record {
    call_back = rw (first_two j a) refl;
    place = rw (first_two j a) refl;
    records = record {
      target = rw (first_two j a) refl;
      bufs = refl;
      procs = refl;
      sizes = refl;
      tags = refl;
    };
  };
}

expecting_two_not_prc : (k : ℕ) → (expecting_two.slots k).active ≢ nbx_known_prc
expecting_two_not_prc k e = grind arith

-- A message for position 1, which comes while the wait polls for position 0
abbrev second_poll : Poll
second_poll = record {
  probe = some (record { source = 4; tag = sparse_tag 3 1 1; bytes = 16 });
  all_sent = λ j. false;
  barrier_done = false;
}

abbrev pub mixed_answers : Answers
mixed_answers = record {
  polls = second_poll ∷ busy_poll ∷ four_rounds;
  sizes = λ j. [];
  contents = λ j. [];
}

pub mixed-Enough : Enough usual_mpi 4 (second_poll ∷ busy_poll ∷ four_rounds)
mixed-Enough =
    other_round second_poll (record { big_data = true; msize = 16 }, sixteen_bytes)
      (other_round busy_poll (record { big_data = true; msize = 16 }, sixteen_bytes)
        four_rounds-Enough)

nbx_wait-delivers_example :
    (t : Nbx Memory) × (nbx_wait usual_mpi mixed_answers expecting_two ≡ some t)
    × ((k : ℕ)
        → k < 4
        → (expecting_two.slots k).active ≡ nbx_unknown
        → (rounds : List Poll) × (last : Poll) × (rest : List Poll) × (second_poll ∷ busy_poll
              ∷ four_rounds
            ≡ rounds ++ last ∷ rest)
          × (last.barrier_done ≡ true)
          × Delivered insertion_sort insertion_sort-IsSort k
              (info_at expecting_two k)
              (heard_all usual_mpi (rounds ++ last ∷ []) expecting_two k)
              t.mem)
nbx_wait-delivers_example =
    nbx_wait-delivers usual_mpi insertion_sort insertion_sort-IsSort mixed_answers expecting_two
      (λ j. []) (omega arith) expecting_two_not_prc mixed-Enough expecting_two-Received
