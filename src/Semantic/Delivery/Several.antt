-- ===== src/Semantic/Delivery/Several.antt =====
-- What a wait for several queued exchanges with unknown senders leaves to unpack
-- (VCluster/VCluster_base.hpp: sendrecvMultipleMessagesNBXWait, with msg_alloc and reorder_buffer of
-- VCluster/VCluster.hpp).
use openfpm_vcluster.Prelude.{
  ℕ, ◌<◌, ◌≡◌, ◌≢◌, refl, sym, true, some, List, [], ◌∷◌, ◌++◌, append-nil, OnSome, on_some,
  >>=-OnSome, arith, ap,
}
use openfpm_vcluster.Wire.{Mpi}
use openfpm_vcluster.Tags.{nqueue}
use openfpm_vcluster.Nbx.State.{nbx_unknown, nbx_known_prc, Nbx}
use openfpm_vcluster.Nbx.Progress.{Poll, ignores}
use openfpm_vcluster.Nbx.Wait.{Answers, wait_slots, nbx_wait}
use openfpm_vcluster.Nbx.Completion.{Enough}
use openfpm_vcluster.Nbx.Returning.{nbx_wait-returns}
use openfpm_vcluster.Semantic.Reorder.{Entry}
use openfpm_vcluster.Semantic.Reorder.Order.{IsSort, Arrival}
use openfpm_vcluster.Semantic.Alloc.{Memory}
use openfpm_vcluster.Semantic.Alloc.Growth.{info_at, Received}
use openfpm_vcluster.Semantic.Alloc.Hearing.{heard_all}
use openfpm_vcluster.Semantic.Delivery.{Delivered, Records-Delivered}
use openfpm_vcluster.Semantic.Delivery.Queued.{Received-cong}
use openfpm_vcluster.Semantic.Delivery.Waiting.{Settled, Settled-mem, Midway}
use openfpm_vcluster.Semantic.Delivery.Queue.{wait_slots-Next}

module _ (m : Mpi) (a : Answers) (s : Nbx Memory) (rs : ℕ → List Arrival) where
  -- The wait has not begun.
  Midway-start : Received rs s → Midway m s rs a.polls 0 [] a.polls s
  Midway-start h = record {
    split = refl;
    base = refl;
    queued = refl;
    infos = λ k. refl;
    ahead = λ k l. refl;
    behind = λ k l. absurd (omega (arith, l));
    got = Received-cong rs _ s (λ j u. sym (append-nil (rs j))) h;
    done = λ k l u. absurd (omega (arith, l));
  }

  -- Every position that was in use is settled.
  unfoldable pub AllSettled : Nbx Memory → Type 0
  AllSettled t = (k : ℕ) → k < 4 → (s.slots k).active ≡ nbx_unknown → Settled m s rs a.polls k t

  pub nbx_wait-AllSettled :
      ((k : ℕ) → (s.slots k).active ≢ nbx_known_prc)
      → Received rs s
      → OnSome AllSettled (nbx_wait m a s)
  unfolding nbx_wait AllSettled
  nbx_wait-AllSettled b h = >>=-OnSome AllSettled (wait_slots m nqueue 0 a s) _ λ t e.
      let (left, (used, w)) =
        on_some _ _ e (wait_slots-Next m s rs a.polls h.own nqueue 0 [] a s b (Midway-start h)) in
      λ k l q.
        Settled-mem m s rs a.polls k t (record t { queued = 0 }) (λ qs r. r)
          (w.done k l (ap ignores q))

module _ (m : Mpi) (sort : List Entry → List Entry) (good : IsSort sort) where
  -- The wait for a queue of exchanges, of which none exchanges sizes first: it returns, if MPI's
  -- answers contain four rounds in which an exchange can end, and messages that MPI can count in the
  -- others. For every position that awaited unknown senders, there is then a round in which the
  -- barrier was complete, such that reorder_buffer makes of the position's vectors the same
  -- messages, those from before and those that the polling showed for the position, for whichever
  -- exchange it was done, up to that round, in the order of their senders and tags.
  pub nbx_wait-delivers :
      (a : Answers) (s : Nbx Memory) (rs : ℕ → List Arrival)
      → s.nbx_cnt < s.nbx_cycle
      → ((k : ℕ) → (s.slots k).active ≢ nbx_known_prc)
      → Enough m 4 a.polls
      → Received rs s
      → (t : Nbx Memory) × (nbx_wait m a s ≡ some t)
        × ((k : ℕ)
            → k < 4
            → (s.slots k).active ≡ nbx_unknown
            → (rounds : List Poll) × (last : Poll) × (rest : List Poll) × (a.polls
                ≡ rounds ++ last ∷ rest)
              × (last.barrier_done ≡ true)
              × Delivered sort good k
                  (info_at s k)
                  (rs k ++ heard_all m (rounds ++ last ∷ []) s k)
                  t.mem)
  unfolding AllSettled
  nbx_wait-delivers a s rs c b e h =
      let (t, q, _, _) = nbx_wait-returns m a s c b e in
      let settled = on_some (AllSettled m a s rs) _ q (nbx_wait-AllSettled m a s rs b h) in
      (
        t,
        q,
        λ k l u.
            let x = settled k l u in
            (
              x.rounds,
              x.last,
              x.rest,
              x.consumed,
              x.barrier,
              Records-Delivered sort good t.mem k (info_at s k) _ x.records,
            ),
      )
