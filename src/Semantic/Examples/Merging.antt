-- ===== src/Semantic/Examples/Merging.antt =====
-- A whole exchange: processes 1 and 4 send to process 5, which receives with SSendRecv.
use mathlib.Core.List.{Perm, head-eq_of_cons-eq, tail-eq_of_cons-eq}
use openfpm_vcluster.Prelude.{
  ℕ, ◌≡◌, refl, sym, ap, ap₂, ◌∙◌, subst, true, false, none, some, List, [], ◌∷◌, ◌++◌, length,
  length-append, All, arith,
}
use mathlib.Core.List.Permᴰ
use openfpm_vcluster.Wire.{probe_size}
use openfpm_vcluster.Wire.Platform.{usual_mpi, usual_mpi-IsStandard}
use openfpm_vcluster.Tags.{sparse_tag}
use openfpm_vcluster.Nbx.Progress.{Poll}
use openfpm_vcluster.Nbx.Wait.{Answers}
use openfpm_vcluster.Nbx.Completion.{Enough, none_needed, other_round, final_round}
use openfpm_vcluster.Nbx.Examples.{final_poll, final_poll-IsFinal}
use openfpm_vcluster.Semantic.Reorder.Order.{bufs_of}
use openfpm_vcluster.Semantic.Pack.Sending.{messages-pack_all}
use openfpm_vcluster.Semantic.Pack.RoundTrip.{merge_all, prepared}
use openfpm_vcluster.Semantic.Pack.Unpack.{process_receive_buffer}
use openfpm_vcluster.Semantic.Pack.Network.{sent_to, all_sent}
use openfpm_vcluster.Semantic.Send.{Vcluster, Request, ssend_recv}
use openfpm_vcluster.Semantic.Send.Starting.{IsIdle, messages_of}
use openfpm_vcluster.Semantic.Send.Shown.{shown, delivered}
use openfpm_vcluster.Semantic.Send.Belonging.{TakesPart}
use openfpm_vcluster.Semantic.Send.Merging.{ShowsAll, ssend_recv-merge_all}
use openfpm_vcluster.Semantic.Examples.{insertion_sort, insertion_sort-IsSort}
use openfpm_vcluster.Semantic.Examples.Packing.{
  two_widths, first_vector, sender, senders, sender-IsSender,
}
use openfpm_vcluster.Semantic.Examples.Sending.{quiet, quiet-IsIdle, count, add_view, nothing_yet}

-- A round that shows message `i` of process `p`, of `n` bytes
abbrev pub showing : ℕ → ℕ → ℕ → Poll
showing p i n = record {
  probe = some (record { source = p; tag = sparse_tag 3 0 i; bytes = n });
  all_sent = λ j. true;
  barrier_done = false;
}

abbrev busy_rounds : List Poll
busy_rounds = showing 4 0 2 ∷ showing 4 1 4 ∷ showing 1 0 2 ∷ showing 1 1 4 ∷ []

-- What MPI writes to the receive buffers of position 0
abbrev bytes_written : ℕ → List (List ℕ)
bytes_written j = (1 ∷ 2 ∷ []) ∷ (3 ∷ 4 ∷ 5 ∷ 6 ∷ []) ∷ (1 ∷ 2 ∷ []) ∷ (3 ∷ 4 ∷ 5 ∷ 6 ∷ []) ∷ []

abbrev answers : Answers
answers = record {
  polls = busy_rounds ++ final_poll ∷ [];
  sizes = λ j. [];
  contents = bytes_written;
}

abbrev pub receiving : Request
receiving = record {
  layout = two_widths;
  send = [];
  prc_send = [];
  prc_recv = 7;
  sz_recv = [];
  opt = 1;
  value_size = none;
  base = 900;
}

two_bytes : probe_size usual_mpi 2 ≡ some (record { big_data = false; msize = 2 })
unfolding probe_size
two_bytes = refl

pub four_bytes : probe_size usual_mpi 4 ≡ some (record { big_data = false; msize = 4 })
unfolding probe_size
four_bytes = refl

answers-Enough : Enough usual_mpi 1 answers.polls
answers-Enough =
    other_round _ (_, two_bytes)
      (other_round _ (_, four_bytes)
        (other_round _ (_, two_bytes)
          (other_round _ (_, four_bytes)
            (final_round final_poll final_poll-IsFinal (none_needed [])))))

true-false : false ≡ true → ⊥
true-false e = grind arith

-- Where only the last round finds the barrier complete, the loop polls all of them.
pub last_only :
    (ps : List Poll)
    → All (λ (p : Poll). p.barrier_done ≡ false) ps
    → (rounds : List Poll) (last : Poll) (rest : List Poll)
    → ps ++ final_poll ∷ [] ≡ rounds ++ last ∷ rest
    → last.barrier_done ≡ true
    → rounds ++ last ∷ [] ≡ ps ++ final_poll ∷ []
last_only [] h [] last rest e b = ap (λ p. p ∷ []) (sym (head-eq_of_cons-eq e))
last_only [] h (p ∷ rounds) last rest e b =
    let n : 0 ≡ length (rounds ++ last ∷ rest) = ap length (tail-eq_of_cons-eq e) in
    absurd (omega (arith, n, length-append rounds (last ∷ rest)))
last_only (p ∷ ps) (h, hs) [] last rest e b =
    let late : false ≡ true =
      sym h ∙ ap (λ (q : Poll). q.barrier_done) (head-eq_of_cons-eq e) ∙ b in
    absurd (true-false late)
last_only (p ∷ ps) (h, hs) (q ∷ rounds) last rest e b =
    ap₂ (λ (x : Poll) (xs : List Poll). x ∷ xs) (sym (head-eq_of_cons-eq e))
      (last_only ps hs rounds last rest (tail-eq_of_cons-eq e) b)

answers-ShowsAll : ShowsAll answers (all_sent 5 senders)
answers-ShowsAll rounds last rest e b =
    subst (λ ps. Perm (delivered (shown ps) (answers.contents 0)) (all_sent 5 senders))
      (sym (last_only busy_rounds (refl, (refl, (refl, (refl, tt)))) rounds last rest e b))
      ∣ Permᴰ.append_comm (sent_to 5 (sender 4)) (sent_to 5 (sender 1)) ∣₁

sender-TakesPart : (p : ℕ) → TakesPart 3 (sender p)
sender-TakesPart p = (
  refl,
  refl,
  omega arith,
  ((omega arith, (omega arith, tt)), ((omega arith, (omega arith, tt)), tt)),
)

pub receiving-messages : messages_of receiving ≡ some []
receiving-messages =
    (messages-pack_all two_widths [] [] (record { base = 900; written = [] }) refl tt).0

ssend_recv-merge_all_example :
    (t : Vcluster) × (ssend_recv usual_mpi insertion_sort
        (process_receive_buffer count add_view two_widths 2)
        receiving
        answers
        nothing_yet
        quiet
      ≡ some (
        t,
        merge_all count add_view 2 0
            (first_vector ∷ first_vector ∷ [])
            (prepared (length (bufs_of (all_sent 5 senders))) nothing_yet),
      ))
    × (t.nbx.mem.prc 7 ≡ 1 ∷ 1 ∷ 4 ∷ 4 ∷ [])
    × (t.mem 0 ≡ none)
    × IsIdle t
ssend_recv-merge_all_example =
    ssend_recv-merge_all usual_mpi usual_mpi-IsStandard insertion_sort insertion_sort-IsSort count
      add_view two_widths 5 senders receiving answers nothing_yet quiet [] (omega arith)
      (omega arith, (omega arith, tt)) (omega arith, (omega arith, tt))
      (sender-IsSender 1, (sender-IsSender 4, tt)) (sender-TakesPart 1, (sender-TakesPart 4, tt))
      (omega arith) quiet-IsIdle refl refl receiving-messages answers-Enough answers-ShowsAll
