-- ===== src/Semantic/Delivery/Arrived.antt =====
-- What an exchange that is the first in its queue, and that had received nothing, has received at the end
-- of its polling, with the bytes (VCluster/VCluster.hpp: the call-backs and reorder_buffer).
use mathlib.Core.List.{Pairwise, Perm}
use openfpm_vcluster.Prelude.{◌≡◌, ap, ◌∙◌, subst, true, some, List, [], ◌∷◌, ◌++◌, on_some}
use openfpm_vcluster.Wire.{Mpi}
use openfpm_vcluster.Nbx.State.{nbx_unknown, Nbx}
use openfpm_vcluster.Nbx.Progress.{Poll, ignores}
use openfpm_vcluster.Nbx.Wait.{Answers, wait_loop}
use openfpm_vcluster.Nbx.Completion.{wait_loop-SameExchange}
use openfpm_vcluster.Semantic.Reorder.{Entry}
use openfpm_vcluster.Semantic.Reorder.Order.{IsSort, Arrival, NotAfter, reordered}
use openfpm_vcluster.Semantic.Alloc.{Memory, BaseInfo, received_into}
use openfpm_vcluster.Semantic.Alloc.Recording.{Records}
use openfpm_vcluster.Semantic.Alloc.Growth.{Received, InUse, info_at}
use openfpm_vcluster.Semantic.Alloc.Hearing.{heard_all}
use openfpm_vcluster.Semantic.Delivery.{reorder_slot, Polled, wait_loop-Polled, Records-Delivered}
use openfpm_vcluster.Semantic.Delivery.Contents.{carrying, Records-carrying}

module _ (m : Mpi) where
  -- What the vectors that `info` names hold when the polling is over and MPI has written the buffers:
  -- the messages that came until a round found the barrier complete.
  pub record Held (info : BaseInfo) (a : Answers) (n : Nbx Memory) (r : Nbx Memory × List Poll)
      : Type 0 where
    pub rounds : List Poll
    pub last : Poll
    pub consumed : a.polls ≡ rounds ++ last ∷ r.1
    pub barrier : last.barrier_done ≡ true
    pub records :
        Records
          (received_into a.contents r.0.mem)
          0
          info
          (carrying (a.contents 0) (heard_all m (rounds ++ last ∷ []) n 0))

  pub wait_loop-Held :
      (a : Answers) (n : Nbx Memory) (r : Nbx Memory × List Poll) (info : BaseInfo)
      → (n.slots 0).active ≡ nbx_unknown
      → info_at n 0 ≡ info
      → Received (λ j. []) n
      → wait_loop m 0 a.polls n ≡ some r
      → Held info a n r
  wait_loop-Held a n r info act named h loop =
      let k = on_some (Polled m a.polls n) _ loop (wait_loop-Polled m 0 a.polls n) in
      let (got, same) = k.grows (λ j. []) h in
      let used : InUse r.0 0 =
        ap ignores ((wait_loop-SameExchange m 0 a.polls n r loop).0.active 0 ∙ act) in
      let new = heard_all m (k.rounds ++ k.last ∷ []) n 0 in
      let held : Records r.0.mem 0 info new =
        subst (λ i. Records r.0.mem 0 i new) (same 0 ∙ named) (got.slot 0 used).records in
      record {
        rounds = k.rounds;
        last = k.last;
        consumed = k.consumed;
        barrier = k.barrier;
        records = Records-carrying a.contents r.0.mem 0 info new held;
      }

  module _ (sort : List Entry → List Entry) (good : IsSort sort) where
    -- `bs` are these messages in the order of their senders and tags, and what reorder_buffer makes of
    -- the vectors.
    pub record Arrived (info : BaseInfo) (a : Answers) (n : Nbx Memory) (r : Nbx Memory × List Poll)
        : Type 0 where
      pub rounds : List Poll
      pub last : Poll
      pub bs : List Arrival
      pub consumed : a.polls ≡ rounds ++ last ∷ r.1
      pub barrier : last.barrier_done ≡ true
      pub arranges :
          reorder_slot sort 0 info (received_into a.contents r.0.mem) ≡ some (reordered bs)
      pub came : Perm bs (carrying (a.contents 0) (heard_all m (rounds ++ last ∷ []) n 0))
      pub sorted : Pairwise NotAfter bs

    pub wait_loop-Arrived :
        (a : Answers) (n : Nbx Memory) (r : Nbx Memory × List Poll) (info : BaseInfo)
        → (n.slots 0).active ≡ nbx_unknown
        → info_at n 0 ≡ info
        → Received (λ j. []) n
        → wait_loop m 0 a.polls n ≡ some r
        → Arrived info a n r
    wait_loop-Arrived a n r info act named h loop =
        let k = wait_loop-Held a n r info act named h loop in
        let (bs, d, p, o) =
          Records-Delivered sort good (received_into a.contents r.0.mem) 0 info
            (carrying (a.contents 0) (heard_all m (k.rounds ++ k.last ∷ []) n 0)) k.records in
        record {
          rounds = k.rounds;
          last = k.last;
          bs = bs;
          consumed = k.consumed;
          barrier = k.barrier;
          arranges = d;
          came = p;
          sorted = o;
        }
