-- ===== src/Semantic/Send/Merging.antt =====
-- A whole exchange with SSendRecv, from the sends of all processes to what one of them returns
-- (VCluster/VCluster.hpp, with VCluster/VCluster_base.hpp and VCluster/VCluster_meta_function.hpp).
use mathlib.Core.List.{Perm}
use mathlib.Core.List.Perm
use openfpm_vcluster.Prelude.{
  ℕ, ◌<◌, ◌≡◌, sym, ap, ◌∙◌, true, false, Option, none, some, List, [], ◌∷◌, ◌++◌, length, map,
  subst, All, All-perm,
}
use openfpm_vcluster.Wire.{Mpi, IsStandard}
use openfpm_vcluster.Nbx.State.{Outgoing}
use openfpm_vcluster.Nbx.Progress.{Poll}
use openfpm_vcluster.Nbx.Wait.{Answers}
use openfpm_vcluster.Nbx.Completion.{Enough}
use openfpm_vcluster.Semantic.Reorder.{Buffer, Entry}
use openfpm_vcluster.Semantic.Reorder.Order.{IsSort, Arrival, bufs_of, procs_of}
use openfpm_vcluster.Semantic.Reorder.Unique.{sorted_unique}
use openfpm_vcluster.Semantic.Pack.{Layout, widths}
use openfpm_vcluster.Semantic.Pack.RoundTrip.{merge_all, Positive, prepared}
use openfpm_vcluster.Semantic.Pack.Unpack.{Unpacking, View, process_receive_buffer}
use openfpm_vcluster.Semantic.Pack.Network.{
  Posting, all_posted, InRanks, Sender, posting_of, all_sent, all_sent-posted, all_addressed,
  Ranked, Ranked-InRanks, Chain-Pairwise, all_posted-Chain,
}
use openfpm_vcluster.Semantic.Pack.InOrder.{IsSender, InMemory, process_receive_buffer-all_sent}
use openfpm_vcluster.Semantic.Send.{Vcluster, Request, has_flag, receive_known, ssend_recv}
use openfpm_vcluster.Semantic.Send.Starting.{IsIdle, messages_of}
use openfpm_vcluster.Semantic.Send.Shown.{
  shown, delivered, Belongs, Belongs-prop, heard_all-delivered,
}
use openfpm_vcluster.Semantic.Send.Belonging.{TakesPart, Joins, TakesPart-Joins, all_posted-Belongs}
use openfpm_vcluster.Semantic.Send.Exchanging.{Ended, ssend_recv-Ended}

-- When a round finds the barrier complete, MPI has shown the messages `rs`, each once, in any order,
-- and no others, and has written their bytes: a process enters the barrier when its synchronous sends
-- are acknowledged, which they are when they are being received.
abbrev pub ShowsAll : Answers → List Arrival → Type 0
ShowsAll a rs =
    (rounds : List Poll) (last : Poll) (rest : List Poll)
    → a.polls ≡ rounds ++ last ∷ rest
    → last.barrier_done ≡ true
    → Perm (delivered (shown (rounds ++ last ∷ [])) (a.contents 0)) rs

IsSender-InMemory :
    (l : Layout) (ss : List Sender)
    → All (IsSender l) ss
    → All (λ (s : Sender). All (λ v. InMemory s.read v.columns) s.send) ss
IsSender-InMemory l [] h = tt
IsSender-InMemory l (s ∷ ss) (h, hs) = (h.1, IsSender-InMemory l ss hs)

-- What was unpacked is what was posted to the process, in the order of the senders and their messages.
pub Ended-all_posted :
    (m : Mpi) (std : IsStandard m) (sort : List Entry → List Entry) (good : IsSort sort)
    {S : Type 0} (unpack : List Buffer → Unpacking S → Option (Unpacking S)) (rank : ℕ)
    (ps : List Posting) (r : Request) (a : Answers) (u : Unpacking S) (s : Vcluster)
    (x : Ended m sort good unpack u r a s)
    → InRanks 0 ps
    → All (Joins s.nbx.nbx_cnt) ps
    → s.nbx.nbx_cnt < 2147483648
    → ShowsAll a (all_posted rank ps)
    → x.bs ≡ all_posted rank ps
Ended-all_posted m std sort good unpack rank ps r a u s x ranked part c shows =
    let rs = all_posted rank ps in
    let moved = shows x.rounds x.last x.rest x.consumed x.barrier in
    let own =
      subst (λ b. All (Belongs m b) rs) (sym x.lone.base)
        (all_posted-Belongs m std rank s.nbx.nbx_cnt ps c part) in
    let heard =
      heard_all-delivered m x.n x.lone.queued x.lone.active (x.rounds ++ x.last ∷ []) (a.contents 0)
        (All-perm (Belongs m x.n.cnt_base) (Belongs-prop m x.n.cnt_base) moved own) in
    let came : Perm x.bs rs = Perm.trans (subst (Perm x.bs) heard x.came) moved in
    sorted_unique x.bs rs came x.sorted (Chain-Pairwise 0 0 rs (all_posted-Chain rank 0 ps ranked))

module _ (m : Mpi) (std : IsStandard m) (sort : List Entry → List Entry) (good : IsSort sort)
    {S : Type 0} (size : S → ℕ) (merge : ℕ → View → S → S) where
  abbrev unpacking : Layout → List Buffer → Unpacking S → Option (Unpacking S)
  unpacking l = process_receive_buffer size merge l (length (widths l))

  Ended-all_sent :
      (l : Layout) (rank : ℕ) (ss : List Sender) (r : Request) (a : Answers) (u : Unpacking S)
      (s : Vcluster) (x : Ended m sort good (unpacking l) u r a s)
      → Ranked 0 ss
      → All (IsSender l) ss
      → All (TakesPart s.nbx.nbx_cnt) ss
      → s.nbx.nbx_cnt < 2147483648
      → ShowsAll a (all_sent rank ss)
      → x.bs ≡ all_sent rank ss
  Ended-all_sent l rank ss r a u s x ranked h part c shows =
      let same = all_sent-posted rank ss in
      Ended-all_posted m std sort good (unpacking l) rank (map posting_of ss) r a u s x
        (Ranked-InRanks 0 ss ranked)
        (TakesPart-Joins s.nbx.nbx_cnt ss part (IsSender-InMemory l ss h)) c
        (subst (ShowsAll a) (sym same) shows)
      ∙ same

  -- A whole exchange of vectors of one layout: the processes `ss`, of increasing ranks, each send
  -- vectors from their memory, in an exchange that is the first of its queue at the same NBX_cnt;
  -- at most 131072 messages each, none of more than 2147483647 bytes. Process `rank`, at which no
  -- call is outstanding, makes a synchronous call with unknown senders. If MPI's answers contain a
  -- round in which the exchange can end, and MPI has shown the messages that were sent to the
  -- process when it finds the barrier complete, the call returns, and its receiving object is what
  -- one loop over vectors makes that merges the vectors addressed to the process: each once, unless
  -- it is empty, with its number of elements and its bytes, in the order of the senders' ranks, and
  -- those of one sender in the order in which it sent them. The caller's vector holds the senders
  -- of the messages; the memory of the call is deleted; and no call is outstanding.
  pub ssend_recv-merge_all :
      (l : Layout) (rank : ℕ) (ss : List Sender) (r : Request) (a : Answers) (u : Unpacking S)
      (s : Vcluster) (outs : List Outgoing)
      → 0 < length (widths l)
      → Positive (widths l)
      → Ranked 0 ss
      → All (IsSender l) ss
      → All (TakesPart s.nbx.nbx_cnt) ss
      → s.nbx.nbx_cnt < 2147483648
      → IsIdle s
      → has_flag r.opt receive_known ≡ false
      → r.sz_recv ≡ []
      → messages_of r ≡ some outs
      → Enough m 1 a.polls
      → ShowsAll a (all_sent rank ss)
      → (t : Vcluster) × (ssend_recv m sort
            (process_receive_buffer size merge l (length (widths l)))
            r
            a
            u
            s
          ≡ some (
            t,
            merge_all size merge
                (length (widths l))
                0
                (all_addressed rank ss)
                (prepared (length (bufs_of (all_sent rank ss))) u),
          ))
        × (t.nbx.mem.prc r.prc_recv ≡ procs_of (all_sent rank ss))
        × (t.mem 0 ≡ none)
        × IsIdle t
  ssend_recv-merge_all l rank ss r a u s outs w p ranked h part c idle k z e enough shows =
      let x = ssend_recv-Ended m sort good (unpacking l) u r a s outs idle k z e enough in
      let all = Ended-all_sent l rank ss r a u s x ranked h part c shows in
      (
        x.after,
        x.returns _ (
            ap (λ rs. unpacking l (bufs_of rs) u) all
            ∙ process_receive_buffer-all_sent size merge l rank ss u w p h),
        x.senders ∙ ap procs_of all,
        x.deleted,
        x.idle,
      )
