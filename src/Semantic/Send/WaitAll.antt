-- ===== src/Semantic/Send/WaitAll.antt =====
-- All the waits for the calls that are outstanding (VCluster/VCluster.hpp: SSendRecvWait).
use mathlib.Core.List.{Pairwise, Perm}
use openfpm_vcluster.Prelude.{
  ℕ, suc, ◌+◌, ◌≤◌, ◌<◌, ◌≡◌, refl, ap, subst, Option, some, List, [], ◌∷◌, length, ◌>>=◌, arith,
}
use openfpm_vcluster.Wire.{Mpi}
use openfpm_vcluster.Nbx.State.{nbx_unactive, Nbx}
use openfpm_vcluster.Nbx.Wait.{Answers, wait_slot, wait_slots, nbx_wait}
use openfpm_vcluster.Semantic.Alloc.{Memory, received_into}
use openfpm_vcluster.Semantic.Reorder.{Buffer, Entry}
use openfpm_vcluster.Semantic.Reorder.Order.{IsSort, Arrival, NotAfter, bufs_of}
use openfpm_vcluster.Semantic.Pack.Unpack.{Unpacking}
use openfpm_vcluster.Semantic.Send.{Vcluster, Request, next_wait, ssend_recv_wait, with_contents}
use openfpm_vcluster.Semantic.Send.Lone.{wait_slots-unactive}
use openfpm_vcluster.Semantic.Send.Starting.{IsIdle}
use openfpm_vcluster.Semantic.Send.Calling.{ApartCallers}
use openfpm_vcluster.Semantic.Send.Exchanging.{finished}
use openfpm_vcluster.Semantic.Send.Waits.{Holds, wait-WaitEnds, after-Between, after_last}

-- The answers of a wait that has nothing to wait for
abbrev pub no_answers : Answers
no_answers = record { polls = []; sizes = λ j. []; contents = λ j. [] }

nbx_wait-unactive :
    (m : Mpi) (s : Nbx Memory)
    → ((k : ℕ) → (s.slots k).active ≡ nbx_unactive)
    → nbx_wait m no_answers s ≡ some (record s { queued = 0 })
unfolding nbx_wait wait_slots wait_slot
nbx_wait-unactive m s h =
    rw (h 0, wait_slot)
      (rw (wait_slots-unactive m 3 1 no_answers s (omega arith) (λ k l. h k)) refl)

module _ (m : Mpi) (sort : List Entry → List Entry) {S : Type 0}
    (unpack : List Buffer → Unpacking S → Option (Unpacking S)) (us : ℕ → Unpacking S) where
  -- A wait for each request, in the order of the calls; `us k` is what the wait at position `k`
  -- unpacks to. The first wait polls until all exchanges are over.
  unfoldable pub wait_each :
      List Request → Answers → Vcluster → Option (Vcluster × List (Unpacking S))
  wait_each [] a s = some (s, [])
  wait_each (r ∷ rs) a s = ssend_recv_wait m sort unpack r.prc_recv a (us s.pcnt) s >>= λ x.
      wait_each rs no_answers x.0 >>= λ y. some (y.0, x.1 ∷ y.1)

  -- What the waits from position `k` on unpacked: the messages in the order of senders and tags
  pub data Outcomes (came : ℕ → List Arrival) : ℕ → List (Unpacking S) → Type 0 where
    no_more : {k : ℕ} → Outcomes came k []
    one_more :
        {k : ℕ} {v : Unpacking S} {vs : List (Unpacking S)} (bs : List Arrival)
        → Perm bs (came k)
        → Pairwise NotAfter bs
        → unpack (bufs_of bs) (us k) ≡ some v
        → Outcomes came (k + 1) vs
        → Outcomes came k (v ∷ vs)

  -- All waits return.
  pub record AllWaited (came : ℕ → List Arrival) (rs : List Request) (a : Answers) (s : Vcluster)
      : Type 0 where
    pub w : Vcluster
    pub vs : List (Unpacking S)
    pub returns : wait_each rs a s ≡ some (w, vs)
    pub idle : IsIdle w
    pub count : length vs ≡ length rs
    pub outcomes : Outcomes came s.pcnt vs

  module _ (good : IsSort sort)
      (total : (bufs : List Buffer) (u : Unpacking S)
        → (v : Unpacking S) × (unpack bufs u ≡ some v))
      (came : ℕ → List Arrival) where
    pub wait_each-AllWaited :
        (r : Request) (rs : List Request) (a : Answers) (s : Vcluster) (n : Nbx Memory)
        → nbx_wait m a s.nbx ≡ some n
        → s.scnt ≡ s.pcnt + length (r ∷ rs)
        → s.scnt ≤ 4
        → 0 < n.nbx_cycle
        → n.queued ≡ 0
        → ((j : ℕ) → (n.slots j).active ≡ nbx_unactive)
        → ApartCallers (r ∷ rs)
        → Holds came s.pcnt (r ∷ rs) (received_into a.contents n.mem) s.mem
        → AllWaited came (r ∷ rs) a s
    unfolding wait_each
    wait_each-AllWaited r [] a s n wait e l c q f p h =
        let x =
          wait-WaitEnds m sort good unpack came r [] a (us s.pcnt) s n (omega (arith, e, l))
            (λ bufs. total bufs (us s.pcnt)) wait h in
        record {
          w = next_wait (finished s.pcnt r.prc_recv x.bs (with_contents a n) s);
          vs = x.v ∷ [];
          returns = rw x.returns refl;
          idle =
              after_last m sort good unpack came r x.bs s (with_contents a n) (omega (arith, e)) c q
                f;
          count = refl;
          outcomes = one_more x.bs x.same x.sorted x.unpacked no_more;
        }
    wait_each-AllWaited r (r' ∷ rs) a s n wait e l c q f (Pairwise.cons apart p) h =
        let x =
          wait-WaitEnds m sort good unpack came r (r' ∷ rs) a (us s.pcnt) s n (omega (arith, e, l))
            (λ bufs. total bufs (us s.pcnt)) wait h in
        let t = next_wait (finished s.pcnt r.prc_recv x.bs (with_contents a n) s) in
        let b =
          after-Between m sort good unpack came r r' rs x.bs s (with_contents a n) e c f apart h in
        let y =
          wait_each-AllWaited r' rs no_answers t (record t.nbx { queued = 0 })
            (nbx_wait-unactive m t.nbx b.free) b.scnt (omega (arith, b.scnt, b.pcnt, e, l)) b.cycle
            refl b.free p b.holds in
        record {
          w = y.w;
          vs = x.v ∷ y.vs;
          returns = rw x.returns (rw y.returns refl);
          idle = y.idle;
          count = ap suc y.count;
          outcomes =
              one_more x.bs x.same x.sorted x.unpacked
                (subst (λ k. Outcomes came k y.vs) b.pcnt y.outcomes);
        }
