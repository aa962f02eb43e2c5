-- ===== src/Nbx/Barrier.antt =====
-- When a process enters the barrier of an exchange (VCluster/VCluster_base.hpp,
-- progressCommunication), and which messages it leaves alone.
use openfpm_vcluster.Nbx.Frame.{progress_rule, check_send-same}
use openfpm_vcluster.Prelude.{
  ℕ, zero, suc, ◌+◌, ◌<◌, ◌≡◌, ◌≢◌, refl, ap, ◌∙◌, Bool, true, false, ◌&&◌, ◌||◌, not, some, List,
  [], ◌∷◌, ◌++◌, leb, arith,
}
use openfpm_vcluster.Wire.{Mpi, Probed, recv_probed}
use openfpm_vcluster.Tags.{nqueue, slot_of_tag}
use openfpm_vcluster.Nbx.State.{Call, ibarrier, recv, Nbx, Slot, log_recv}
use openfpm_vcluster.Nbx.Post.{is_empty}
use openfpm_vcluster.Nbx.Progress.{
  Message, Poll, ignores, receive, check_send, check_sends, on_message, progress,
}

abbrev pub barriers : List Call → ℕ
barriers [] = 0
barriers (ibarrier ∷ cs) = suc (barriers cs)
barriers (_ ∷ cs) = barriers cs

barriers-append : (xs ys : List Call) → barriers (xs ++ ys) ≡ barriers xs + barriers ys
barriers-append [] ys = omega arith
barriers-append (ibarrier ∷ cs) ys = omega (arith, barriers-append cs ys)
barriers-append (_ ∷ cs) ys = barriers-append cs ys

abbrev pub flag : Bool → ℕ
flag true = 1
flag false = 0

module _ {U : Type 0} where
  -- The positions that have entered their barrier
  abbrev pub reached_count : Nbx U → ℕ
  reached_count s =
      flag (s.slots 0).reached_bar_req
      + flag (s.slots 1).reached_bar_req
      + flag (s.slots 2).reached_bar_req
      + flag (s.slots 3).reached_bar_req

  -- What check_send does at its own position, and at the others.
  barriers-check_send :
      (p : Poll) (i : ℕ) (s : Nbx U)
      → barriers (check_send p i s).calls + flag (s.slots i).reached_bar_req
        ≡ barriers s.calls + flag ((check_send p i s).slots i).reached_bar_req
  unfolding check_send
  barriers-check_send p i s = ground (arith, barriers-append s.calls (ibarrier ∷ []))

  check_send_other :
      (p : Poll) (i j : ℕ) (s : Nbx U) → j ≢ i → (check_send p i s).slots j ≡ s.slots j
  unfolding check_send
  check_send_other p i j s h = ground arith

  check_send_reached :
      (p : Poll) (i : ℕ) (s : Nbx U)
      → ((check_send p i s).slots i).reached_bar_req ≡ (
          (s.slots i).reached_bar_req
          || (not (ignores (s.slots i).active) && (is_empty s.req || p.all_sent i)))
  unfolding check_send
  check_send_reached p i s = ground arith

  pub reached_other :
      (p : Poll) (i j : ℕ) (s : Nbx U)
      → j ≢ i
      → ((check_send p i s).slots j).reached_bar_req ≡ (s.slots j).reached_bar_req
  reached_other p i j s h = ap (λ (x : Slot U). x.reached_bar_req) (check_send_other p i j s h)

  flag_other :
      (p : Poll) (i j : ℕ) (s : Nbx U)
      → j ≢ i
      → flag ((check_send p i s).slots j).reached_bar_req ≡ flag (s.slots j).reached_bar_req
  flag_other p i j s h = ap flag (reached_other p i j s h)

  -- The barriers entered are the positions that have newly reached them.
  Counted : Nbx U → Nbx U → Type 0
  Counted s t = barriers t.calls + reached_count s ≡ barriers s.calls + reached_count t

  check_send-Counted : (p : Poll) (i : ℕ) (s : Nbx U) → i < 4 → Counted s (check_send p i s)
  unfolding Counted
  check_send-Counted p zero s h = omega (
    arith,
    barriers-check_send p 0 s,
    flag_other p 0 1 s (omega arith),
    flag_other p 0 2 s (omega arith),
    flag_other p 0 3 s (omega arith),
  )
  check_send-Counted p (suc zero) s h = omega (
    arith,
    barriers-check_send p 1 s,
    flag_other p 1 0 s (omega arith),
    flag_other p 1 2 s (omega arith),
    flag_other p 1 3 s (omega arith),
  )
  check_send-Counted p (suc (suc zero)) s h = omega (
    arith,
    barriers-check_send p 2 s,
    flag_other p 2 0 s (omega arith),
    flag_other p 2 1 s (omega arith),
    flag_other p 2 3 s (omega arith),
  )
  check_send-Counted p (suc (suc (suc zero))) s h = omega (
    arith,
    barriers-check_send p 3 s,
    flag_other p 3 0 s (omega arith),
    flag_other p 3 1 s (omega arith),
    flag_other p 3 2 s (omega arith),
  )
  check_send-Counted p (suc (suc (suc (suc i)))) s h = absurd (omega arith)

  Counted-trans : (s t u : Nbx U) → Counted s t → Counted t u → Counted s u
  unfolding Counted
  Counted-trans s t u h k = omega arith

  check_sends-Counted : (p : Poll) (s : Nbx U) → Counted s (check_sends p s)
  unfolding check_sends
  check_sends-Counted p s =
      Counted-trans _ _ _
        (Counted-trans _ _ _ (check_send-Counted p 0 s (omega arith))
          (check_send-Counted p 1 _ (omega arith)))
        (Counted-trans _ _ _ (check_send-Counted p 2 _ (omega arith))
          (check_send-Counted p 3 _ (omega arith)))

  receive-Counted :
      (i : ℕ) (msg : Message) (pr : Probed) (s : Nbx U) → Counted s (receive i msg pr s)
  unfolding Counted receive log_recv
  receive-Counted i msg pr s =
      let c =
        recv msg.source msg.tag
          ((s.slots i).msg_alloc
            (record {
              msg_i = pr.msize;
              total_msg = 0;
              total_p = 0;
              proc = msg.source;
              ri = (s.slots i).rid;
              tag = msg.tag;
            })
            (s.slots i).ptr_arg s.mem).0
          (recv_probed pr) in
      ground (arith, barriers-append s.calls (c ∷ []))

  Counted-refl : (s : Nbx U) → Counted s s
  unfolding Counted
  Counted-refl s = refl

  -- In one round of polling, whatever MPI answers, the process enters as many barriers as there are
  -- positions of the queue that newly reach theirs: each position enters one barrier, once.
  pub progress-barriers :
      (m : Mpi) (p : Poll) (s t : Nbx U)
      → progress m p s ≡ some t
      → barriers t.calls + reached_count s ≡ barriers s.calls + reached_count t
  unfolding Counted
  progress-barriers =
      progress_rule Counted Counted-refl Counted-trans check_sends-Counted
        (λ i msg pr s a. receive-Counted i msg pr s)

  -- Whether position `j` has entered its barrier after the tests of the sends
  abbrev pub enters : Poll → Nbx U → ℕ → Bool
  enters p s j =
      (s.slots j).reached_bar_req
      || (not (ignores (s.slots j).active) && (is_empty s.req || p.all_sent j))

  enters_self :
      (p : Poll) (i : ℕ) (s : Nbx U) → ((check_send p i s).slots i).reached_bar_req ≡ enters p s i
  enters_self p i s = check_send_reached p i s

  -- A test of another position changes nothing that position `j` is tested for.
  pub enters_other :
      (p : Poll) (i j : ℕ) (s : Nbx U) → j ≢ i → enters p (check_send p i s) j ≡ enters p s j
  enters_other p i j s h =
      rw (reached_other p i j s h, (check_send-same p i s).active j, (check_send-same p i s).req)

  -- The tests of the sends put exactly those positions into their barrier that await unknown
  -- senders and have all their sends acknowledged (or none posted); the others stay as they were.
  pub check_sends-enters :
      (p : Poll) (j : ℕ) (s : Nbx U)
      → j < 4
      → ((check_sends p s).slots j).reached_bar_req ≡ enters p s j
  unfolding check_sends
  check_sends-enters p zero s h =
      reached_other p 3 0 _ (omega arith)
      ∙ reached_other p 2 0 _ (omega arith)
      ∙ reached_other p 1 0 _ (omega arith)
      ∙ enters_self p 0 s
  check_sends-enters p (suc zero) s h =
      reached_other p 3 1 _ (omega arith)
      ∙ reached_other p 2 1 _ (omega arith)
      ∙ enters_self p 1 _
      ∙ enters_other p 0 1 s (omega arith)
  check_sends-enters p (suc (suc zero)) s h =
      reached_other p 3 2 _ (omega arith)
      ∙ enters_self p 2 _
      ∙ enters_other p 1 2 _ (omega arith)
      ∙ enters_other p 0 2 s (omega arith)
  check_sends-enters p (suc (suc (suc zero))) s h =
      enters_self p 3 _
      ∙ enters_other p 2 3 _ (omega arith)
      ∙ enters_other p 1 3 _ (omega arith)
      ∙ enters_other p 0 3 s (omega arith)
  check_sends-enters p (suc (suc (suc (suc j)))) s h = absurd (omega arith)

  -- A message whose tag decodes to no position of the queue, or to one that does not await unknown
  -- senders, is left where it is, and the round ends there: nothing changes, no send is tested.
  pub progress-foreign :
      (m : Mpi) (p : Poll) (msg : Message) (s : Nbx U)
      → p.probe ≡ some msg
      → (leb nqueue (slot_of_tag s.cnt_base msg.tag)
          || ignores (s.slots (slot_of_tag s.cnt_base msg.tag)).active)
        ≡ true
      → progress m p s ≡ some s
  unfolding progress on_message
  progress-foreign m p msg s e h = rw (e, progress, h)
