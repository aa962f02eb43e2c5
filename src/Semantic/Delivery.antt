-- ===== src/Semantic/Delivery.antt =====
-- What an exchange with unknown senders leaves to unpack (VCluster/VCluster.hpp: the call-backs and
-- reorder_buffer, with the wait of VCluster/VCluster_base.hpp between them).
pub mod Contents
pub mod Arrived
pub mod Kept
pub mod Queued
pub mod Waiting
pub mod Turn
pub mod Queue
pub mod Several
use mathlib.Core.List.{Pairwise, Perm}
use openfpm_vcluster.Prelude.{
  ℕ, suc, ◌<◌, ◌≡◌, refl, ap, ◌∙◌, subst, Bool, true, false, ◌&&◌, Option, some, List, [], ◌∷◌,
  ◌++◌, OnSome, on_some, >>=-OnSome, OnSome-mono, Bool-cases, inl, inr, arith,
}
use openfpm_vcluster.Wire.{Mpi}
use openfpm_vcluster.Nbx.State.{nbx_unknown, Nbx, nbx_report}
use openfpm_vcluster.Nbx.Progress.{Poll, ignores, progress}
use openfpm_vcluster.Nbx.Frame.{SameExchange, same_trans, nbx_report-same, progress-SameExchange}
use openfpm_vcluster.Nbx.Wait.{wait_loop}
use openfpm_vcluster.Nbx.Completion.{Enough, wait_loop-ends, wait_loop-SameExchange}
use openfpm_vcluster.Semantic.Reorder.{Entry, Reordered, reorder_buffer}
use openfpm_vcluster.Semantic.Reorder.Order.{
  IsSort, Arrival, reordered, NotAfter, reorder_buffer-orders,
}
use openfpm_vcluster.Semantic.Alloc.{BaseInfo, Memory}
use openfpm_vcluster.Semantic.Alloc.Recording.{Records}
use openfpm_vcluster.Semantic.Alloc.Growth.{
  info_at, Received, Grows, nothing, Grows-trans, Grows-then, Unchanged-Grows,
}
use openfpm_vcluster.Semantic.Alloc.Hearing.{heard, heard_all, heard_all-same, progress-Grows}

pub nbx_report-Grows : (s : Nbx Memory) → Grows nothing s (nbx_report s)
unfolding nbx_report
nbx_report-Grows s = Unchanged-Grows s (nbx_report s) (record {
  mem = ground arith;
  active = λ j. ground arith;
  call_back = λ j. ground arith;
  argument = λ j. ground arith;
  place = λ j. ground arith;
})

-- What the loop has polled when it ends: some rounds, and a last one, in which the barrier was
-- complete; what came in these rounds is added to what was received.
pub record Polled (m : Mpi) (ps : List Poll) (s : Nbx Memory) (r : Nbx Memory × List Poll)
    : Type 0 where
  pub rounds : List Poll
  pub last : Poll
  pub consumed : ps ≡ rounds ++ last ∷ r.1
  pub barrier : last.barrier_done ≡ true
  pub grows : Grows (heard_all m (rounds ++ last ∷ []) s) s r.0

right_true : (a b : Bool) → (a && b) ≡ true → b ≡ true
right_true a b h = ground arith

pub wait_loop-Polled :
    (m : Mpi) (j : ℕ) (ps : List Poll) (s : Nbx Memory)
    → OnSome (Polled m ps s) (wait_loop m j ps s)
unfolding wait_loop
wait_loop-Polled m j [] s = tt
wait_loop-Polled m j (p ∷ ps) s = >>=-OnSome (Polled m (p ∷ ps) s) (progress m p s) _ λ t e.
    let u = nbx_report t in
    let same = same_trans s t u (progress-SameExchange m p s t e) (nbx_report-same t) in
    let heard_one = progress-Grows m p s t e in
    elim (Bool-cases ((u.slots j).reached_bar_req && p.barrier_done)) [
      | inl b ↦ rw b (record {
        rounds = [];
        last = p;
        consumed = refl;
        barrier = right_true _ _ b;
        grows = Grows-trans (heard m p s) nothing s t u heard_one (nbx_report-Grows t);
      })
      | inr b ↦ rw b (
          OnSome-mono (Polled m ps u) (Polled m (p ∷ ps) s) (wait_loop m j ps u)
            (λ r k.
              later t u r same (Grows-then (heard m p s) s t u heard_one (nbx_report-Grows t)) k)
            (wait_loop-Polled m j ps u))
    ]
  where
    later :
        (t u : Nbx Memory) (r : Nbx Memory × List Poll)
        → SameExchange s u
        → Grows (heard m p s) s u
        → Polled m ps u r
        → Polled m (p ∷ ps) s r
    later t u r same g k =
        let all = k.rounds ++ k.last ∷ [] in
        record {
          rounds = p ∷ k.rounds;
          last = k.last;
          consumed = ap (λ x. p ∷ x) k.consumed;
          barrier = k.barrier;
          grows =
              Grows-trans (heard m p s) (heard_all m all s) s u r.0 g
                (subst (λ n. Grows n u r.0) (heard_all-same m all s u same) k.grows);
        }

-- The vectors of a position, handed to reorder_buffer
abbrev pub reorder_slot : (List Entry → List Entry) → ℕ → BaseInfo → Memory → Option Reordered
reorder_slot sort j info m =
    reorder_buffer sort (m.recv_buf j) (m.prc info.prc) (m.tags info.tags) (m.sz info.sz)

module _ (sort : List Entry → List Entry) (good : IsSort sort) where
  -- What reorder_slot leaves of the messages `rs`
  abbrev pub Delivered : ℕ → BaseInfo → List Arrival → Memory → Type 0
  Delivered j info rs m =
      (bs : List Arrival) × (reorder_slot sort j info m ≡ some (reordered bs))
      × Perm bs rs
      × Pairwise NotAfter bs

  pub Records-Delivered :
      (m : Memory) (j : ℕ) (info : BaseInfo) (rs : List Arrival)
      → Records m j info rs
      → Delivered j info rs m
  Records-Delivered m j info rs h =
      let (bs, e, p, o) = reorder_buffer-orders sort good rs in
      (bs, rw (h.bufs, h.procs, h.tags, h.sizes) e, p, o)

  -- An exchange with unknown senders at one position of the queue, from what the position had
  -- received before: the loop of the wait ends, if MPI's answers contain a round in which it can,
  -- with a round in which the barrier is complete; and then reorder_buffer makes of the position's
  -- vectors the same messages, those from before and those that the polling showed for the
  -- position, up to that round, in the order of their senders and tags.
  wait_loop-delivers :
      (m : Mpi) (j n : ℕ) {ps : List Poll} (s : Nbx Memory) (rs : ℕ → List Arrival)
      → j < 4
      → (s.slots j).active ≡ nbx_unknown
      → Enough m (suc n) ps
      → Received rs s
      → (r : Nbx Memory × List Poll) × (rounds : List Poll) × (last : Poll) × (wait_loop m j ps s
          ≡ some r)
        × (ps ≡ rounds ++ last ∷ r.1)
        × (last.barrier_done ≡ true)
        × Delivered j (info_at s j) (rs j ++ heard_all m (rounds ++ last ∷ []) s j) r.0.mem
  wait_loop-delivers m j n {ps} s rs lt a e h =
      let (r, loop, left) = wait_loop-ends m j n s lt a e in
      let k = on_some (Polled m ps s) _ loop (wait_loop-Polled m j ps s) in
      let same = (wait_loop-SameExchange m j ps s r loop).0 in
      let used : ignores (r.0.slots j).active ≡ false = ap ignores (same.active j ∙ a) in
      let new = heard_all m (k.rounds ++ k.last ∷ []) s j in
      (
        r,
        k.rounds,
        k.last,
        loop,
        k.consumed,
        k.barrier,
        Records-Delivered r.0.mem j (info_at s j) (rs j ++ new) (
            subst (λ i. Records r.0.mem j i (rs j ++ new)) ((k.grows rs h).1 j)
              ((k.grows rs h).0.slot j used).records),
      )
