-- ===== src/Semantic/Send/Serials.antt =====
-- A whole exchange of serialized objects with SSendRecv, from the packing by all processes to the
-- objects that one of them gets (VCluster/VCluster.hpp, with VCluster/VCluster_base.hpp and
-- VCluster/VCluster_meta_function.hpp).
use openfpm_vcluster.Prelude.{
  ℕ, ◌+◌, ◌≤◌, ◌<◌, ◌≡◌, ap, ◌∙◌, subst, false, Option, none, some, List, [], ◌∷◌, map, length, All,
  arith,
}
use openfpm_vcluster.Wire.{Mpi, IsStandard, int_max}
use openfpm_vcluster.Tags.{tag_span}
use openfpm_vcluster.Nbx.State.{Outgoing}
use openfpm_vcluster.Nbx.Wait.{Answers}
use openfpm_vcluster.Nbx.Completion.{Enough}
use openfpm_vcluster.Semantic.Reorder.{Buffer, Entry}
use openfpm_vcluster.Semantic.Reorder.Order.{IsSort, bufs_of, procs_of}
use openfpm_vcluster.Semantic.Pack.{Serial}
use openfpm_vcluster.Semantic.Pack.Serializing.{placed, all_packed}
use openfpm_vcluster.Semantic.Pack.RoundTrip.{prepared}
use openfpm_vcluster.Semantic.Pack.Unpack.{Unpacking, process_serial_buffer}
use openfpm_vcluster.Semantic.Pack.Network.{InRanks, all_posted, Readable}
use openfpm_vcluster.Semantic.Pack.Serials.{
  Serializer, serial_posting, all_objects_for, merge_objects, placed-Readable, reads,
  process_serial_buffer-merge_objects,
}
use openfpm_vcluster.Semantic.Send.{Vcluster, Request, has_flag, receive_known, ssend_recv}
use openfpm_vcluster.Semantic.Send.Starting.{IsIdle, messages_of}
use openfpm_vcluster.Semantic.Send.Belonging.{Joins}
use openfpm_vcluster.Semantic.Send.Exchanging.{ssend_recv-Ended}
use openfpm_vcluster.Semantic.Send.Merging.{ShowsAll, Ended-all_posted}

-- The process takes part in the exchange that is the first of its queue at NBX_cnt `cnt`, with at
-- most 131072 messages, none of more than 2147483647 bytes.
abbrev pub Serializes : {X : Type 0} → (X → Serial) → ℕ → Serializer X → Type 0
Serializes pack cnt s =
    (s.cnt ≡ cnt)
    × (s.position ≡ 0)
    × (length (placed s.base s.prc_send (map pack s.send)) ≤ tag_span)
    × All (λ x. length (pack x).packed ≤ int_max) s.send

Serializes-Joins :
    {X : Type 0} (pack : X → Serial) (cnt : ℕ) (ss : List (Serializer X))
    → All (Serializes pack cnt) ss
    → All (Joins cnt) (map (serial_posting pack) ss)
Serializes-Joins pack cnt [] h = tt
Serializes-Joins pack cnt (s ∷ ss) ((e, q, l, k), h) =
    let ps = map pack s.send in
    let at : s.base + 0 ≡ s.base = omega arith in
    (
      (
        e,
        q,
        l,
        subst (λ a. All (Readable (reads s.base (all_packed ps))) (placed a s.prc_send ps)) at
            (placed-Readable pack s.base [] s.prc_send s.send k),
      ),
      Serializes-Joins pack cnt ss h,
    )

module _ (m : Mpi) (std : IsStandard m) (sort : List Entry → List Entry) (good : IsSort sort)
    {S X : Type 0} (size : S → ℕ) (pack : X → Serial) (unpack : Buffer → X)
    (merge : ℕ → X → S → S) where
  abbrev unpacking : List Buffer → Unpacking S → Option (Unpacking S)
  unpacking bs u = some (process_serial_buffer size unpack merge bs u)

  -- A whole exchange of objects that are serialized, where Unpacker makes of what Packer wrote the
  -- object that was packed: the processes `ss`, of increasing ranks, each send objects, in an
  -- exchange that is the first of its queue at the same NBX_cnt; at most 131072 messages each, none
  -- of more than 2147483647 bytes. Process `rank`, at which no call is outstanding, makes a
  -- synchronous call with unknown senders. If MPI's answers contain a round in which the exchange
  -- can end, and MPI has shown the messages that were sent to the process when it finds the barrier
  -- complete, the call returns, and its receiving object is what merges the objects sent to the
  -- process: each once, unless it is packed to nothing, equal to the object that was packed, in the
  -- order of the senders' ranks, and those of one sender in the order in which it sent them. The
  -- caller's vector holds the senders of the messages; the memory of the call is deleted; and no
  -- call is outstanding.
  pub ssend_recv-merge_objects :
      (rank : ℕ) (ss : List (Serializer X)) (r : Request) (a : Answers) (u : Unpacking S)
      (s : Vcluster) (outs : List Outgoing)
      → ((x : X) → unpack (pack x).packed ≡ x)
      → InRanks 0 (map (serial_posting pack) ss)
      → All (Serializes pack s.nbx.nbx_cnt) ss
      → s.nbx.nbx_cnt < 2147483648
      → IsIdle s
      → has_flag r.opt receive_known ≡ false
      → r.sz_recv ≡ []
      → messages_of r ≡ some outs
      → Enough m 1 a.polls
      → ShowsAll a (all_posted rank (map (serial_posting pack) ss))
      → (t : Vcluster) × (ssend_recv m sort
            (λ bs v. some (process_serial_buffer size unpack merge bs v))
            r
            a
            u
            s
          ≡ some (
            t,
            merge_objects pack size unpack merge 0
                (all_objects_for pack rank ss)
                (prepared (length (all_objects_for pack rank ss)) u),
          ))
        × (t.nbx.mem.prc r.prc_recv ≡ procs_of (all_posted rank (map (serial_posting pack) ss)))
        × (t.mem 0 ≡ none)
        × IsIdle t
  ssend_recv-merge_objects rank ss r a u s outs inverse ranked part c idle k z e enough shows =
      let x = ssend_recv-Ended m sort good unpacking u r a s outs idle k z e enough in
      let all =
        Ended-all_posted m std sort good unpacking rank (map (serial_posting pack) ss) r a u s x
          ranked (Serializes-Joins pack s.nbx.nbx_cnt ss part) c shows in
      (
        x.after,
        x.returns _ (
            ap (λ rs. unpacking (bufs_of rs) u) all
            ∙ ap some
                (process_serial_buffer-merge_objects pack size unpack merge inverse rank ss u)),
        x.senders ∙ ap procs_of all,
        x.deleted,
        x.idle,
      )
