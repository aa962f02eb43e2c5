-- ===== src/Nbx/Examples/Waits.antt =====
-- The statements on waits, at a small exchange.
use openfpm_vcluster.Prelude.{
  ℕ, ◌≡◌, ◌≢◌, refl, some, List, [], ◌∷◌, ◌++◌, if◌then◌else◌, ◌==◌, ◌>>=◌, arith,
}
use openfpm_vcluster.Wire.Platform.{usual_mpi}
use openfpm_vcluster.Tags.{sparse_tag, next_cnt}
use openfpm_vcluster.Nbx.State.{nbx_known_prc, Nbx, log_clear, log_send, nbx_report}
use openfpm_vcluster.Nbx.Post.{
  queue_send, queue_sends, queue_all_sends, async_unknown, mark_base, recv, send_all, recv_one,
  recv_all,
}
use openfpm_vcluster.Nbx.Progress.{Poll, check_send, check_sends, progress}
use openfpm_vcluster.Nbx.Wait.{
  Answers, deliver, with_sizes, execute, advance, exchange_sized, wait_loop, clear_requests,
  sync_unknown, finish_known, continue_known_prc, finish_unknown, wait_slot, wait_slots, nbx_wait,
}
use openfpm_vcluster.Nbx.Posting.{sparse_calls}
use openfpm_vcluster.Nbx.Completion.{Enough, none_needed, final_round}
use openfpm_vcluster.Nbx.WaitAll.{Completed, nbx_wait-Completed}
use openfpm_vcluster.Nbx.Returning.{nbx_wait-returns}
use openfpm_vcluster.Nbx.Reuse.{refused_call_reuses_tags}
use openfpm_vcluster.Nbx.Examples.{
  counting, idle_slot, three_messages, final_poll, final_poll-IsFinal, or_fresh, polling,
}

abbrev after_loop : Nbx ℕ × List Poll
after_loop = (nbx_report (check_sends final_poll polling), [])

polling_ends : wait_loop usual_mpi 0 (final_poll ∷ []) polling ≡ some after_loop
unfolding wait_loop progress check_sends check_send nbx_report
polling_ends = refl

abbrev pub four_rounds : List Poll
four_rounds = final_poll ∷ final_poll ∷ final_poll ∷ final_poll ∷ []

pub four_rounds-Enough : Enough usual_mpi 4 four_rounds
four_rounds-Enough = final_round final_poll final_poll-IsFinal (
    final_round final_poll final_poll-IsFinal (
      final_round final_poll final_poll-IsFinal
        (final_round final_poll final_poll-IsFinal (none_needed []))))

abbrev answers : Answers
answers = record { polls = four_rounds; sizes = λ j. 12 ∷ []; contents = λ j. [] }

polling_not_prc : (k : ℕ) → (polling.slots k).active ≢ nbx_known_prc
polling_not_prc k e = grind arith

nbx_wait-returns_example :
    (t : Nbx ℕ) × (nbx_wait usual_mpi answers polling ≡ some t)
    × (t.queued ≡ 0)
    × Completed 4 0 polling t
nbx_wait-returns_example =
    nbx_wait-returns usual_mpi answers polling (omega arith) polling_not_prc four_rounds-Enough

-- Position 1 holds a call that exchanges the size of one message first.
abbrev two_queued : Nbx ℕ
two_queued = record polling {
  queued = 2;
  slots = λ j.
      if j == 1
      then record idle_slot { active = nbx_known_prc; prc_recv = 1 ∷ [] }
      else polling.slots j;
  sz_recv_tmp = 0 ∷ [];
}

abbrev two_done : Nbx ℕ
two_done = or_fresh (nbx_wait usual_mpi answers two_queued)

two_queued_ends : nbx_wait usual_mpi answers two_queued ≡ some two_done
unfolding nbx_wait wait_slots wait_slot finish_unknown wait_loop progress check_sends check_send
    nbx_report clear_requests advance next_cnt execute deliver exchange_sized with_sizes
    finish_known continue_known_prc log_clear send_all recv_all recv_one recv
two_queued_ends = refl

nbx_wait-Completed_example : (two_done.queued ≡ 0) × Completed 4 0 two_queued two_done
nbx_wait-Completed_example =
    nbx_wait-Completed usual_mpi answers two_queued two_done (omega arith) two_queued_ends

abbrev called : Nbx ℕ
called = or_fresh (
    sync_unknown usual_mpi three_messages counting 0 [] polling
    >>= async_unknown three_messages counting 0)

polling-called :
    (sync_unknown usual_mpi three_messages counting 0 [] polling
      >>= async_unknown three_messages counting 0)
    ≡ some called
unfolding sync_unknown async_unknown queue_all_sends queue_sends queue_send mark_base log_send
polling-called = refl

abbrev called_done : Nbx ℕ
called_done = or_fresh (nbx_wait usual_mpi answers called)

called_ends : nbx_wait usual_mpi answers called ≡ some called_done
unfolding nbx_wait wait_slots wait_slot finish_unknown wait_loop progress check_sends check_send
    nbx_report clear_requests advance next_cnt execute log_clear sync_unknown async_unknown
    queue_all_sends queue_sends queue_send mark_base log_send
called_ends = refl

refused_call_reuses_tags_example :
    (called.req ≡ polling.req ++ sparse_calls 3 2 0 three_messages)
    × (sparse_tag called_done.nbx_cnt 0 7 ≡ sparse_tag 3 2 7)
unfolding sync_unknown async_unknown queue_all_sends queue_sends queue_send mark_base log_send
refused_call_reuses_tags_example =
    refused_call_reuses_tags usual_mpi [] answers three_messages three_messages counting counting 0
      0 7 polling called called_done refl refl (omega arith) refl refl refl (omega arith)
      polling-called called_ends
