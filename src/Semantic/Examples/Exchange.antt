-- ===== src/Semantic/Examples/Exchange.antt =====
-- The invariant of the polling, at a small exchange.

use openfpm_vcluster.Prelude.{
  ℕ, none, ◌==◌, ◌+◌, ◌≡◌, refl, sym, ◌∙◌, subst, false, some, [], if◌then◌else◌, arith,
}
use openfpm_vcluster.Semantic.Alloc.{Memory, msg_alloc}
use openfpm_vcluster.Wire.{probe_size}
use openfpm_vcluster.Wire.Platform.{usual_mpi}
use openfpm_vcluster.Tags.{slot_of_tag, sparse_tag}
use openfpm_vcluster.Nbx.State.{Slot, Nbx, nbx_unactive, nbx_unknown}
use openfpm_vcluster.Nbx.Progress.{ignores, on_message, progress}
use openfpm_vcluster.Semantic.Alloc.Growth.{info_at, SlotRecords, Received}
use openfpm_vcluster.Semantic.Alloc.Hearing.{heard, progress-Received}
use openfpm_vcluster.Nbx.Examples.{busy_poll}

-- A process that awaits the messages of an exchange at position 0
abbrev pub own_vectors : Memory
own_vectors = record {
  recv_buf = λ b. [];
  prc = λ k. [];
  sz = λ k. [];
  tags = λ k. [];
  infos = λ k. record { recv_buf = some k; prc = k + 4; sz = k; tags = k; opt = 0 };
  address = λ b i. b + i;
}

abbrev pub expecting_slot : Slot Memory
expecting_slot = record {
  active = nbx_unactive;
  rid = 0;
  reached_bar_req = false;
  sends = [];
  prc_recv = [];
  msg_alloc = msg_alloc;
  ptr_arg = 0;
}

abbrev pub expecting : Nbx Memory
expecting = record {
  nbx_cnt = 3;
  nbx_cycle = 58;
  queued = 1;
  cnt_base = 3;
  slots = λ j. if j == 0 then record expecting_slot { active = nbx_unknown } else expecting_slot;
  req = [];
  stat = 0;
  sz_recv_tmp = [];
  s_log = [];
  r_log = [];
  tot_sent = 0;
  tot_recv = 0;
  calls = [];
  mem = own_vectors;
}

expecting_first : (j : ℕ) → ignores (expecting.slots j).active ≡ false → j ≡ 0
expecting_first j a = grind arith

nothing_yet : SlotRecords expecting 0 []
nothing_yet = record {
  call_back = refl;
  place = refl;
  records = record { target = refl; bufs = refl; procs = refl; sizes = refl; tags = refl };
}

expecting-Received : Received (λ j. []) expecting
expecting-Received = record {
  own = record {
    buffers = λ j a.
        subst (λ x. (info_at expecting x).recv_buf ≡ some x) (sym (expecting_first j a)) refl;
    sizes = λ j k a b e. same j k a b;
    tags = λ j k a b e. same j k a b;
    callers = λ j k a b e. same j k a b;
  };
  slot = λ j a. subst (λ x. SlotRecords expecting x []) (sym (expecting_first j a)) nothing_yet;
}
  where
    same :
        (j k : ℕ)
        → ignores (expecting.slots j).active ≡ false
        → ignores (expecting.slots k).active ≡ false
        → j ≡ k
    same j k a b = expecting_first j a ∙ sym (expecting_first k b)

abbrev received_one : Nbx Memory
received_one = elim (progress usual_mpi busy_poll expecting) [ none ↦ expecting | some t ↦ t ]

expecting_receives : progress usual_mpi busy_poll expecting ≡ some received_one
unfolding progress on_message slot_of_tag sparse_tag probe_size
expecting_receives = refl

progress-Received_example : Received (λ j. heard usual_mpi busy_poll expecting j) received_one
progress-Received_example =
    progress-Received usual_mpi busy_poll expecting received_one (λ j. []) expecting_receives
      expecting-Received
