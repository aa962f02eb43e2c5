-- ===== src/Nbx/Examples.antt =====
-- Test data for the exchanges: a process of a small job, and what MPI answers it.
mod Calls
pub mod Waits
use openfpm_vcluster.Prelude.{
  ℕ, ◌+◌, ◌≡◌, refl, true, false, Option, none, some, List, [], ◌∷◌, if◌then◌else◌, ◌==◌,
}
use openfpm_vcluster.Wire.{probe_size}
use openfpm_vcluster.Wire.Platform.{usual_mpi}
use openfpm_vcluster.Tags.{sparse_tag}
use openfpm_vcluster.Nbx.State.{nbx_unactive, nbx_unknown, Outgoing, MsgAlloc, Slot, Nbx}
use openfpm_vcluster.Nbx.Progress.{Message, Poll}
use openfpm_vcluster.Nbx.Completion.{IsFinal, Enough, none_needed, other_round, final_round}
use openfpm_vcluster.Nbx.Posting.{sparse_calls}

-- A call-back whose memory counts the messages
abbrev pub counting : MsgAlloc ℕ
counting a arg u = (u, u + 1)

abbrev pub idle_slot : Slot ℕ
idle_slot = record {
  active = nbx_unactive;
  rid = 0;
  reached_bar_req = false;
  sends = [];
  prc_recv = [];
  msg_alloc = counting;
  ptr_arg = 0;
}

abbrev pub fresh : Nbx ℕ
fresh = record {
  nbx_cnt = 3;
  nbx_cycle = 58;
  queued = 0;
  cnt_base = 0;
  slots = λ j. idle_slot;
  req = [];
  stat = 0;
  sz_recv_tmp = [];
  s_log = [];
  r_log = [];
  tot_sent = 0;
  tot_recv = 0;
  calls = [];
  mem = 0;
}

-- The middle message is empty.
abbrev pub three_messages : List Outgoing
three_messages =
    record { sz = 24; prc = 1; ptr = 100 }
    ∷ record { sz = 0; prc = 2; ptr = 200 }
    ∷ record { sz = 5; prc = 3; ptr = 300 }
    ∷ []

abbrev pub arriving : Message
arriving = record { source = 2; tag = sparse_tag 3 0 1; bytes = 16 }

abbrev pub busy_poll : Poll
busy_poll = record { probe = some arriving; all_sent = λ j. false; barrier_done = false }

abbrev pub final_poll : Poll
final_poll = record { probe = none; all_sent = λ j. true; barrier_done = true }

pub final_poll-IsFinal : IsFinal final_poll
final_poll-IsFinal = record { quiet = refl; sent = λ j. refl; barrier = refl }

abbrev pub two_rounds : List Poll
two_rounds = busy_poll ∷ final_poll ∷ []

pub sixteen_bytes : probe_size usual_mpi 16 ≡ some (record { big_data = true; msize = 16 })
unfolding probe_size
sixteen_bytes = refl

pub two_rounds-Enough : Enough usual_mpi 1 two_rounds
two_rounds-Enough =
    other_round busy_poll (record { big_data = true; msize = 16 }, sixteen_bytes)
      (final_round final_poll final_poll-IsFinal (none_needed []))

abbrev pub or_fresh : Option (Nbx ℕ) → Nbx ℕ
or_fresh none = fresh
or_fresh (some t) = t

-- The process awaits unknown senders at position 0, after its own messages were posted.
abbrev pub polling : Nbx ℕ
polling = record fresh {
  queued = 1;
  cnt_base = 3;
  slots = λ j. if j == 0 then record idle_slot { active = nbx_unknown } else idle_slot;
  req = sparse_calls 3 0 0 three_messages;
  s_log = 1 ∷ 3 ∷ [];
}
