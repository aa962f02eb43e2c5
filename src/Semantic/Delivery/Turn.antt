-- ===== src/Semantic/Delivery/Turn.antt =====
-- What the polling for one position of the queue brings to it and to the others
-- (VCluster/VCluster_base.hpp: sendrecvMultipleMessagesNBXWait, with msg_alloc of VCluster/VCluster.hpp).
use openfpm_vcluster.Prelude.{
  ℕ, ◌<◌, ◌≡◌, ◌≢◌, sym, ap, ◌∙◌, subst, some, List, [], ◌∷◌, ◌++◌, append_assoc, on_some, arith,
}
use openfpm_vcluster.Wire.{Mpi}
use openfpm_vcluster.Nbx.State.{Nbx}
use openfpm_vcluster.Nbx.Progress.{Poll, ignores}
use openfpm_vcluster.Nbx.Wait.{wait_loop}
use openfpm_vcluster.Nbx.Completion.{wait_loop-SameExchange}
use openfpm_vcluster.Semantic.Reorder.Order.{Arrival}
use openfpm_vcluster.Semantic.Alloc.{Memory}
use openfpm_vcluster.Semantic.Alloc.Recording.{Records}
use openfpm_vcluster.Semantic.Alloc.Growth.{InUse, info_at, IsOwn}
use openfpm_vcluster.Semantic.Alloc.Hearing.{heard_all}
use openfpm_vcluster.Semantic.Delivery.{Polled, wait_loop-Polled}
use openfpm_vcluster.Semantic.Delivery.Kept.{Apart, Keeps, wait_loop-Keeps}
use openfpm_vcluster.Semantic.Delivery.Queued.{heard_all_at, heard_all-append, Received-cong}
use openfpm_vcluster.Semantic.Delivery.Waiting.{
  Settled, Settled-mem, Midway, Midway-ahead, Midway-start_use,
}

module _ (m : Mpi) (start : Nbx Memory) (rs : ℕ → List Arrival) (all : List Poll)
    (own : IsOwn start) where
  -- The vectors of a position before `j` are no longer filled.
  done-Apart :
      (j : ℕ) (used left : List Poll) (s : Nbx Memory)
      → Midway m start rs all j used left s
      → (k : ℕ) → k < j
      → InUse start k
      → Apart s k (info_at start k)
  done-Apart j used left s w k l u i v =
      let later = Midway-ahead m start rs all j used left s w i v in
      let first = Midway-start_use m start rs all j used left s w i v in
      let away : i ≢ k = λ q. absurd (omega (arith, later, l, q)) in
      (
        away,
        λ q. away (own.callers i k first u (sym (ap (λ f. f.prc) (w.infos i)) ∙ q)),
        λ q. away (own.sizes i k first u (sym (ap (λ f. f.sz) (w.infos i)) ∙ q)),
        λ q. away (own.tags i k first u (sym (ap (λ f. f.tags) (w.infos i)) ∙ q)),
      )

  -- What the polling for position `j` adds
  pub Midway-polled :
      (j : ℕ) (used left : List Poll) (s : Nbx Memory) (r : Nbx Memory × List Poll)
      → Midway m start rs all j used left s
      → wait_loop m j left s ≡ some r
      → (new : List Poll) × Midway m start rs all j (used ++ new) r.1 r.0
        × (InUse start j → Settled m start rs all j r.0)
  Midway-polled j used left s r w loop =
      let k = on_some (Polled m left s) _ loop (wait_loop-Polled m j left s) in
      let new = k.rounds ++ k.last ∷ [] in
      let same = (wait_loop-SameExchange m j left s r loop).0 in
      let (got, infos) = k.grows (λ i. rs i ++ heard_all m used start i) w.got in
      let back = λ (i : ℕ) (u : InUse r.0 i). ap ignores (sym (same.active i)) ∙ u in
      let more : (i : ℕ)
          → InUse r.0 i
          → (rs i ++ heard_all m used start i) ++ heard_all m new s i
            ≡ rs i ++ heard_all m (used ++ new) start i =
        λ i u.
          append_assoc (rs i) (heard_all m used start i) (heard_all m new s i)
          ∙ ap (λ x. rs i ++ x)
              (ap (λ x. heard_all m used start i ++ x)
                  (heard_all_at m start s w.base w.queued i
                    (w.ahead i (Midway-ahead m start rs all j used left s w i (back i u))) new)
                ∙ sym (heard_all-append m used new start i)) in
      let received =
        Received-cong _ (λ i. rs i ++ heard_all m (used ++ new) start i) r.0 more got in
      let named = λ (i : ℕ). infos i ∙ w.infos i in
      let spent : (used ++ new) ++ r.1 ≡ all =
        append_assoc used new r.1
        ∙ ap (λ x. used ++ x) (append_assoc k.rounds (k.last ∷ []) r.1 ∙ sym k.consumed)
        ∙ w.split in
      (
        new,
        record {
          split = spent;
          base = same.base ∙ w.base;
          queued = same.queued ∙ w.queued;
          infos = named;
          ahead = λ i l. same.active i ∙ w.ahead i l;
          behind = λ i l. same.active i ∙ w.behind i l;
          got = received;
          done = λ i l u.
              Settled-mem m start rs all i s r.0
                (λ qs.
                  on_some (λ x. Keeps i (info_at start i) qs s x.0) _ loop
                    (wait_loop-Keeps i (info_at start i) qs m j left s _ w.got
                      (done-Apart j used left s w i l u)))
                (w.done i l u);
        },
        λ u.
            let here : InUse r.0 j = ap ignores (same.active j ∙ w.ahead j (omega arith)) ∙ u in
            record {
              rounds = used ++ k.rounds;
              last = k.last;
              rest = r.1;
              consumed =
                  sym w.split
                  ∙ ap (λ x. used ++ x) k.consumed
                  ∙ sym (append_assoc used k.rounds (k.last ∷ r.1));
              barrier = k.barrier;
              records =
                  subst
                    (λ i.
                      Records r.0.mem j i
                        (rs j ++ heard_all m ((used ++ k.rounds) ++ k.last ∷ []) start j))
                    (named j)
                    (subst
                      (λ ps. Records r.0.mem j (info_at r.0 j) (rs j ++ heard_all m ps start j))
                      (sym (append_assoc used k.rounds (k.last ∷ [])))
                      (received.slot j here).records);
            },
      )
