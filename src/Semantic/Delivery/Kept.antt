-- ===== src/Semantic/Delivery/Kept.antt =====
-- That the messages of an exchange that is over stay as they are while the exchanges behind it in the
-- queue are polled (VCluster/VCluster_base.hpp: progressCommunication and its loop, with msg_alloc of
-- VCluster/VCluster.hpp).
use openfpm_vcluster.Prelude.{
  ℕ, ◌≡◌, ◌≢◌, refl, sym, ap, ◌∙◌, subst, ◌&&◌, ◌||◌, Option, none, some, List, [], ◌∷◌, ◌++◌,
  arith, OnSome, on_some, >>=-OnSome, OnSome-mono, leb, Bool-cases, inl, inr,
}
use openfpm_vcluster.Wire.{Mpi, Probed, probe_size}
use openfpm_vcluster.Tags.{nqueue, slot_of_tag, in_window}
use openfpm_vcluster.Nbx.State.{Nbx, nbx_report}
use openfpm_vcluster.Nbx.Progress.{
  Message, Poll, ignores, receive, accept, check_send, check_sends, on_message, progress,
}
use openfpm_vcluster.Nbx.Frame.{same_trans, right_false, nbx_report-same, progress-SameExchange}
use openfpm_vcluster.Nbx.Wait.{wait_loop}
use openfpm_vcluster.Nbx.Completion.{progress_quiet, progress_message}
use openfpm_vcluster.Semantic.Reorder.Order.{Arrival}
use openfpm_vcluster.Semantic.Alloc.{BaseInfo, Memory}
use openfpm_vcluster.Semantic.Alloc.Recording.{Records, filled}
use openfpm_vcluster.Semantic.Alloc.Growth.{
  InUse, info_at, Received, Grows-then, check_send-Unchanged,
}
use openfpm_vcluster.Semantic.Alloc.Polling.{update_other, args_of, receive-mem}
use openfpm_vcluster.Semantic.Alloc.Hearing.{heard, progress-Grows}
use openfpm_vcluster.Semantic.Delivery.{nbx_report-Grows}

-- No position that awaits unknown senders fills vectors that `info` names, or is position `k`.
abbrev pub Apart : Nbx Memory → ℕ → BaseInfo → Type 0
Apart s k info =
    (i : ℕ)
    → InUse s i
    → (i ≢ k)
      × ((info_at s i).prc ≢ info.prc)
      × ((info_at s i).sz ≢ info.sz)
      × ((info_at s i).tags ≢ info.tags)

pub Apart-same :
    (s t : Nbx Memory) (k : ℕ) (info : BaseInfo)
    → ((j : ℕ) → info_at t j ≡ info_at s j)
    → ((j : ℕ) → InUse t j → InUse s j)
    → Apart s k info
    → Apart t k info
Apart-same s t k info e act h i u =
    let (a, b, c, d) = h i (act i u) in
    (
      a,
      λ q. b (sym (ap (λ f. f.prc) (e i)) ∙ q),
      λ q. c (sym (ap (λ f. f.sz) (e i)) ∙ q),
      λ q. d (sym (ap (λ f. f.tags) (e i)) ∙ q),
    )

-- The vectors of position `k` that hold `qs` hold them still.
abbrev pub Keeps : ℕ → BaseInfo → List Arrival → Nbx Memory → Nbx Memory → Type 0
Keeps k info qs s t = Records s.mem k info qs → Records t.mem k info qs

pub Keeps-mem :
    (k : ℕ) (info : BaseInfo) (qs : List Arrival) (s t : Nbx Memory)
    → t.mem ≡ s.mem
    → Keeps k info qs s t
Keeps-mem k info qs s t e r = subst (λ m. Records m k info qs) (sym e) r

nbx_report_mem : (s : Nbx Memory) → (nbx_report s).mem ≡ s.mem
unfolding nbx_report
nbx_report_mem s = ground arith

module _ (k : ℕ) (info : BaseInfo) (qs : List Arrival) where
  receive-Keeps :
      (i : ℕ) (msg : Message) (pr : Probed) (s : Nbx Memory) (rs : ℕ → List Arrival)
      → Received rs s
      → InUse s i
      → Apart s k info
      → Keeps k info qs s (receive i msg pr s)
  unfolding filled
  receive-Keeps i msg pr s rs h u apart r =
      let m = s.mem in
      let (away, b, c, d) = apart i u in
      let after : Records (filled m i (info_at s i) (args_of i msg pr s)) k info qs = record {
        target = r.target;
        bufs = update_other m.recv_buf i _ k (λ e. away (sym e)) ∙ r.bufs;
        procs = update_other m.prc (info_at s i).prc _ _ (λ e. b (sym e)) ∙ r.procs;
        sizes = update_other m.sz (info_at s i).sz _ _ (λ e. c (sym e)) ∙ r.sizes;
        tags = update_other m.tags (info_at s i).tags _ _ (λ e. d (sym e)) ∙ r.tags;
      } in
      subst (λ x. Records x k info qs) (sym (receive-mem i msg pr s (rs i) h.own u (h.slot i u)))
        after

  accept-Keeps :
      (i : ℕ) (msg : Message) (pr : Probed) (s : Nbx Memory) (rs : ℕ → List Arrival)
      → Received rs s
      → InUse s i
      → Apart s k info
      → Keeps k info qs s (accept i msg pr s)
  unfolding accept
  accept-Keeps i msg pr s rs h u apart = elim (Bool-cases (in_window s.cnt_base s.queued msg.tag)) [
    | inl w ↦ rw w (receive-Keeps i msg pr s rs h u apart)
    | inr w ↦ rw w (λ r. r)
  ]

  check_sends-Keeps : (p : Poll) (s : Nbx Memory) → Keeps k info qs s (check_sends p s)
  unfolding check_sends
  check_sends-Keeps p s r = step 3 _ (step 2 _ (step 1 _ (step 0 s r)))
    where
      step : (i : ℕ) (t : Nbx Memory) → Keeps k info qs t (check_send p i t)
      step i t = Keeps-mem k info qs t (check_send p i t) (check_send-Unchanged p i t).mem

  on_message-Keeps :
      (m : Mpi) (p : Poll) (msg : Message) (s : Nbx Memory) (rs : ℕ → List Arrival)
      → Received rs s
      → Apart s k info
      → OnSome (Keeps k info qs s) (on_message m p msg s)
  unfolding on_message
  on_message-Keeps m p msg s rs h apart =
      let i = slot_of_tag s.cnt_base msg.tag in
      elim (Bool-cases (leb nqueue i || ignores (s.slots i).active)) [
        | inl e ↦ rw e (λ r. r)
        | inr e ↦ rw e (
            >>=-OnSome (Keeps k info qs s) (probe_size m msg.bytes) _ λ pr q r.
              check_sends-Keeps p (accept i msg pr s)
                (accept-Keeps i msg pr s rs h (right_false _ _ e) apart r))
      ]

  progress-Keeps_at :
      (m : Mpi) (p : Poll) (s : Nbx Memory) (rs : ℕ → List Arrival) (o : Option Message)
      → p.probe ≡ o
      → Received rs s
      → Apart s k info
      → OnSome (Keeps k info qs s) (progress m p s)
  progress-Keeps_at m p s rs none e h apart = rw (progress_quiet m p s e) (check_sends-Keeps p s)
  progress-Keeps_at m p s rs (some msg) e h apart =
      rw (progress_message m p msg s e) (on_message-Keeps m p msg s rs h apart)

  pub wait_loop-Keeps :
      (m : Mpi) (j : ℕ) (ps : List Poll) (s : Nbx Memory) (rs : ℕ → List Arrival)
      → Received rs s
      → Apart s k info
      → OnSome (λ r. Keeps k info qs s r.0) (wait_loop m j ps s)
  unfolding wait_loop
  wait_loop-Keeps m j [] s rs h apart = tt
  wait_loop-Keeps m j (p ∷ ps) s rs h apart =
      >>=-OnSome (λ r. Keeps k info qs s r.0) (progress m p s) _
        λ t e.
          let u = nbx_report t in
          let same = same_trans s t u (progress-SameExchange m p s t e) (nbx_report-same t) in
          let (got, infos) =
            Grows-then (heard m p s) s t u (progress-Grows m p s t e) (nbx_report-Grows t) rs h in
          let once : Keeps k info qs s u = λ r.
            Keeps-mem k info qs t u (nbx_report_mem t) (
              on_some (Keeps k info qs s) _ e (progress-Keeps_at m p s rs p.probe refl h apart)
                r) in
          let apart' =
            Apart-same s u k info infos (λ i a. ap ignores (sym (same.active i)) ∙ a) apart in
          elim (Bool-cases ((u.slots j).reached_bar_req && p.barrier_done)) [
            | inl b ↦ rw b once
            | inr b ↦ rw b (
                OnSome-mono (λ r. Keeps k info qs u r.0) (λ r. Keeps k info qs s r.0)
                  (wait_loop m j ps u) (λ r f x. f (once x))
                  (wait_loop-Keeps m j ps u (λ i. rs i ++ heard m p s i) got apart'))
          ]
