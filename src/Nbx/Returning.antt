-- ===== src/Nbx/Returning.antt =====
-- That sendrecvMultipleMessagesNBXWait returns (VCluster/VCluster_base.hpp).
use openfpm_vcluster.Prelude.{
  ℕ, zero, suc, ◌+◌, ◌%◌, ◌≤◌, ◌<◌, ◌≡◌, ◌≢◌, refl, Option, some, List, arith, on_some,
}
use openfpm_vcluster.Wire.{Mpi}
use openfpm_vcluster.Nbx.State.{
  NbxType, nbx_unactive, nbx_unknown, nbx_known, nbx_known_prc, Nbx, set_active,
}
use openfpm_vcluster.Nbx.Progress.{Poll}
use openfpm_vcluster.Nbx.Wait.{
  Answers, execute, clear_requests, finish_known, finish_unknown, wait_slot, wait_slots, nbx_wait,
}
use openfpm_vcluster.Nbx.Requests.{execute-counters}
use openfpm_vcluster.Nbx.Completion.{Enough, Enough-fewer, wait_loop-ends, wait_loop-SameExchange}
use openfpm_vcluster.Nbx.Sync.{advance-pos}
use openfpm_vcluster.Nbx.WaitAll.{
  Completed, Completed-lt, wait_slot-Completed_at, nbx_wait-Completed,
}

module _ {U : Type 0} where
  -- `n` of the rounds in which an exchange can end are left for the positions after.
  abbrev Leaves : Mpi → ℕ → Option (Nbx U × List Poll) → Type 0
  Leaves m n o = (r : Nbx U × List Poll) × (o ≡ some r) × Enough m n r.1

  finish_known-some :
      (j : ℕ) (vs : List ℕ) (s : Nbx U)
      → 0 < s.nbx_cycle
      → (t : Nbx U) × (finish_known j vs s ≡ some t)
  unfolding finish_known
  finish_known-some j vs s h =
      let c = execute-counters vs s in
      let w = execute vs s in
      (
        set_active j nbx_unactive (record w { nbx_cnt = (w.nbx_cnt + 1) % w.nbx_cycle }),
        rw (advance-pos w (omega (arith, c))),
      )

  finish_unknown-Leaves :
      (m : Mpi) (j n : ℕ) (ps : List Poll) (s : Nbx U)
      → j < 4
      → 0 < s.nbx_cycle
      → (s.slots j).active ≡ nbx_unknown
      → Enough m (suc n) ps
      → Leaves m n (finish_unknown m j ps s)
  unfolding finish_unknown clear_requests
  finish_unknown-Leaves m j n ps s lt h a e =
      let (r, loop, left) = wait_loop-ends m j n s lt a e in
      let same = (wait_loop-SameExchange m j ps s r loop).0 in
      let w = clear_requests r.0 in
      (
        (set_active j nbx_unactive (record w { nbx_cnt = (w.nbx_cnt + 1) % w.nbx_cycle }), r.1),
        rw loop (rw (advance-pos w (omega (arith, h, same.cycle)))),
        left,
      )

  wait_slot-Leaves :
      (m : Mpi) (j n : ℕ) (a : Answers) (s : Nbx U) (x : NbxType)
      → j < 4
      → 0 < s.nbx_cycle
      → (s.slots j).active ≡ x
      → x ≢ nbx_known_prc
      → Enough m (suc n) a.polls
      → Leaves m n (wait_slot m j a s)
  unfolding wait_slot
  wait_slot-Leaves m j n a s nbx_unactive lt h q b e =
      ((s, a.polls), rw (q, wait_slot), Enough-fewer m e)
  wait_slot-Leaves m j n a s nbx_unknown lt h q b e =
      rw (q, wait_slot) (finish_unknown-Leaves m j n a.polls s lt h q e)
  wait_slot-Leaves m j n a s nbx_known lt h q b e =
      let (t, f) = finish_known-some j (a.sizes j) s h in
      ((t, a.polls), rw (q, wait_slot) (rw f), Enough-fewer m e)
  wait_slot-Leaves m j n a s nbx_known_prc lt h q b e = absurd (b refl)

  not_prc :
      (s : Nbx U) (j : ℕ) (t : Nbx U)
      → Completed 1 j s t
      → (k : ℕ) → (s.slots k).active ≢ nbx_known_prc
      → (t.slots k).active ≢ nbx_known_prc
  not_prc s j t f k h e = ground (arith, f.active k)

  wait_slots-some :
      (m : Mpi) (n j : ℕ) (a : Answers) (s : Nbx U)
      → j + n ≤ 4
      → s.nbx_cnt < s.nbx_cycle
      → ((k : ℕ) → (s.slots k).active ≢ nbx_known_prc)
      → Enough m n a.polls
      → (t : Nbx U) × (wait_slots m n j a s ≡ some t)
  unfolding wait_slots
  wait_slots-some m zero j a s l c b e = (s, refl)
  wait_slots-some m (suc n) j a s l c b e =
      let (r, q, left) = wait_slot-Leaves m j n a s _ (omega arith) (omega arith) refl (b j) e in
      let f : Completed 1 j s r.0 =
        on_some (λ r. Completed 1 j s r.0) _ q (wait_slot-Completed_at m j a s _ refl c) in
      let lt : r.0.nbx_cnt < r.0.nbx_cycle = Completed-lt 1 j s r.0 (omega arith) f in
      let (t, p) =
        wait_slots-some m n (j + 1) (record a { polls = r.1 }) r.0 (omega arith) lt
          (λ k. not_prc s j r.0 f k (b k)) left in
      (t, rw q p)

  nbx_wait-some :
      (m : Mpi) (a : Answers) (s : Nbx U)
      → s.nbx_cnt < s.nbx_cycle
      → ((k : ℕ) → (s.slots k).active ≢ nbx_known_prc)
      → Enough m 4 a.polls
      → (t : Nbx U) × (nbx_wait m a s ≡ some t)
  unfolding nbx_wait
  nbx_wait-some m a s c b e =
      let (t, q) = wait_slots-some m 4 0 a s (omega arith) c b e in (record t { queued = 0 }, rw q)

  -- The wait returns, whatever is queued except calls that exchange sizes first: MPI's answers need
  -- only contain, after or between any rounds whose messages MPI can count, four rounds with no
  -- message left, the sends acknowledged and the barrier complete. Then no call is queued, all four
  -- positions of the queue are free, NBX_cnt has made one step in its cycle for each exchange, and
  -- no request is left unless no exchange was queued at all.
  pub nbx_wait-returns :
      (m : Mpi) (a : Answers) (s : Nbx U)
      → s.nbx_cnt < s.nbx_cycle
      → ((k : ℕ) → (s.slots k).active ≢ nbx_known_prc)
      → Enough m 4 a.polls
      → (t : Nbx U) × (nbx_wait m a s ≡ some t) × (t.queued ≡ 0) × Completed 4 0 s t
  nbx_wait-returns m a s c b e =
      let (t, q) = nbx_wait-some m a s c b e in
      let (free, f) = nbx_wait-Completed m a s t c q in (t, q, free, f)
