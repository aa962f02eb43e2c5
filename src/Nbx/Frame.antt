-- ===== src/Nbx/Frame.antt =====
-- What polling leaves alone (VCluster/VCluster_base.hpp, progressCommunication).
use openfpm_vcluster.Prelude.{
  ℕ, ◌≡◌, refl, ◌∙◌, Bool, true, false, ◌||◌, not, Option, none, some, length, ◌==◌, leb,
  Bool-cases, inl, inr, arith, ◌>>=◌, OnSome, on_some,
}
use openfpm_vcluster.Wire.{Mpi, Probed, probe_size}
use openfpm_vcluster.Tags.{nqueue, slot_of_tag, in_window}
use openfpm_vcluster.Nbx.State.{Call, Nbx, nbx_report, log_recv, note, complain, log_mismatch}
use openfpm_vcluster.Nbx.Progress.{
  Message, Poll, ignores, receive, accept, check_send, check_sends, on_message, progress,
}

-- `t` is `s` later in the same exchanges: the counters, the queue, the requests and the states of
-- the positions are the same, and a position that has reached its barrier stays there.
pub record SameExchange {U : Type 0} (s t : Nbx U) : Type 0 where
  pub cnt : t.nbx_cnt ≡ s.nbx_cnt
  pub cycle : t.nbx_cycle ≡ s.nbx_cycle
  pub base : t.cnt_base ≡ s.cnt_base
  pub queued : t.queued ≡ s.queued
  pub req : t.req ≡ s.req
  pub s_log : t.s_log ≡ s.s_log
  pub sizes : t.sz_recv_tmp ≡ s.sz_recv_tmp
  pub active : (j : ℕ) → (t.slots j).active ≡ (s.slots j).active
  pub reached : (j : ℕ) → (not (s.slots j).reached_bar_req || (t.slots j).reached_bar_req) ≡ true

implied : (b : Bool) → (not b || b) ≡ true
implied true = refl
implied false = refl

chain : (a b c : Bool) → (not a || b) ≡ true → (not b || c) ≡ true → (not a || c) ≡ true
chain a b c h k = ground arith

module _ {U : Type 0} where
  pub same_refl : (s : Nbx U) → SameExchange s s
  same_refl s = record {
    cnt = refl;
    cycle = refl;
    base = refl;
    queued = refl;
    req = refl;
    s_log = refl;
    sizes = refl;
    active = λ j. refl;
    reached = λ j. implied (s.slots j).reached_bar_req;
  }

  pub same_trans : (s t u : Nbx U) → SameExchange s t → SameExchange t u → SameExchange s u
  same_trans s t u f g = record {
    cnt = g.cnt ∙ f.cnt;
    cycle = g.cycle ∙ f.cycle;
    base = g.base ∙ f.base;
    queued = g.queued ∙ f.queued;
    req = g.req ∙ f.req;
    s_log = g.s_log ∙ f.s_log;
    sizes = g.sizes ∙ f.sizes;
    active = λ j. g.active j ∙ f.active j;
    reached = λ j.
        chain (s.slots j).reached_bar_req (t.slots j).reached_bar_req (u.slots j).reached_bar_req
          (f.reached j) (g.reached j);
  }

  pub check_send-same : (p : Poll) (i : ℕ) (s : Nbx U) → SameExchange s (check_send p i s)
  unfolding check_send
  check_send-same p i s = record {
    cnt = ground arith;
    cycle = ground arith;
    base = ground arith;
    queued = ground arith;
    req = ground arith;
    s_log = ground arith;
    sizes = ground arith;
    active = λ j. ground arith;
    reached = λ j. ground arith;
  }

  pub check_sends-same : (p : Poll) (s : Nbx U) → SameExchange s (check_sends p s)
  unfolding check_sends
  check_sends-same p s =
      same_trans _ _ _ (same_trans _ _ _ (check_send-same p 0 s) (check_send-same p 1 _))
        (same_trans _ _ _ (check_send-same p 2 _) (check_send-same p 3 _))

  receive-same :
      (i : ℕ) (msg : Message) (pr : Probed) (s : Nbx U) → SameExchange s (receive i msg pr s)
  unfolding receive log_recv
  receive-same i msg pr s = record {
    cnt = refl;
    cycle = refl;
    base = refl;
    queued = refl;
    req = refl;
    s_log = refl;
    sizes = refl;
    active = λ j. ground arith;
    reached = λ j. ground arith;
  }

  note-same : (c : Call) (s : Nbx U) → SameExchange s (note c s)
  note-same c s = record {
    cnt = refl;
    cycle = refl;
    base = refl;
    queued = refl;
    req = refl;
    s_log = refl;
    sizes = refl;
    active = λ j. refl;
    reached = λ j. implied (s.slots j).reached_bar_req;
  }

  pub nbx_report-same : (s : Nbx U) → SameExchange s (nbx_report s)
  unfolding nbx_report
  nbx_report-same s = elim (Bool-cases (length s.req == length s.s_log)) [
    | inl e ↦ rw e (same_refl s)
    | inr e ↦ rw e (note-same (complain log_mismatch) s)
  ]

pub right_false : (a b : Bool) → (a || b) ≡ false → b ≡ false
right_false a b e = ground arith

-- A relation between the state before and after that holds of the tests of the sends, and of a
-- receive, holds of a round of polling.
module _ {U : Type 0} (R : Nbx U → Nbx U → Type 0) (R-refl : (s : Nbx U) → R s s)
    (R-trans : (s t u : Nbx U) → R s t → R t u → R s u)
    (R-checks : (p : Poll) (s : Nbx U) → R s (check_sends p s))
    (R-receive : (i : ℕ) (msg : Message) (pr : Probed) (s : Nbx U)
      → ignores (s.slots i).active ≡ false
      → R s (receive i msg pr s)) where
  accept_rule :
      (i : ℕ) (msg : Message) (pr : Probed) (s : Nbx U)
      → ignores (s.slots i).active ≡ false
      → R s (accept i msg pr s)
  unfolding accept
  accept_rule i msg pr s a = elim (Bool-cases (in_window s.cnt_base s.queued msg.tag)) [
    | inl e ↦ rw e (R-receive i msg pr s a)
    | inr e ↦ rw e (R-refl s)
  ]

  on_message_rule :
      (m : Mpi) (p : Poll) (msg : Message) (s : Nbx U) → OnSome (R s) (on_message m p msg s)
  unfolding on_message
  on_message_rule m p msg s = elim (Bool-cases (leb nqueue i || ignores (s.slots i).active)) [
    | inl e ↦ rw e (R-refl s)
    | inr e ↦ rw e (sized (in_use e) (probe_size m msg.bytes))
  ]
    where
      i : ℕ
      i = slot_of_tag s.cnt_base msg.tag

      in_use :
          (leb nqueue i || ignores (s.slots i).active) ≡ false → ignores (s.slots i).active ≡ false
      in_use e = right_false (leb nqueue i) (ignores (s.slots i).active) e

      sized :
          ignores (s.slots i).active ≡ false
          → (o : Option Probed)
          → OnSome (R s) (o >>= λ pr. some (check_sends p (accept i msg pr s)))
      sized a none = tt
      sized a (some pr) = R-trans _ _ _ (accept_rule i msg pr s a) (R-checks p _)

  progress_rule_at :
      (m : Mpi) (p : Poll) (s : Nbx U) (o : Option Message)
      → p.probe ≡ o
      → OnSome (R s) (progress m p s)
  unfolding progress
  progress_rule_at m p s none e = rw (e, progress) (R-checks p s)
  progress_rule_at m p s (some msg) e = rw (e, progress) (on_message_rule m p msg s)

  pub progress_rule : (m : Mpi) (p : Poll) (s t : Nbx U) → progress m p s ≡ some t → R s t
  progress_rule m p s t e = on_some (R s) _ e (progress_rule_at m p s _ refl)

-- One round of polling, whatever MPI answers, keeps the counters, the queue, the requests, the
-- sizes and the state of every position, and no position that has reached its barrier leaves it.
pub progress-SameExchange :
    {U : Type 0} (m : Mpi) (p : Poll) (s t : Nbx U) → progress m p s ≡ some t → SameExchange s t
progress-SameExchange =
    progress_rule SameExchange same_refl same_trans check_sends-same
      (λ i msg pr s a. receive-same i msg pr s)
