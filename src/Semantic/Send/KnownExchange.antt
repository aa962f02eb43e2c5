-- ===== src/Semantic/Send/KnownExchange.antt =====
-- SSendRecv with known senders and numbers of elements, where no other call is outstanding
-- (VCluster/VCluster.hpp): it returns, with what was received in the order of the senders.
use mathlib.Core.List.{Pairwise, Perm}
use openfpm_vcluster.Prelude.{
  ℕ, zero, suc, ◌+◌, ◌*◌, ◌%◌, ◌^◌, ◌≡◌, refl, sym, ap, ◌∙◌, subst, true, Option, none, some, List,
  [], ◌∷◌, map, length, length-map, replicate, arith,
}
use openfpm_vcluster.Wire.{Mpi}
use openfpm_vcluster.Nbx.State.{Nbx, Outgoing, Incoming}
use openfpm_vcluster.Nbx.Post.{async_known}
use openfpm_vcluster.Nbx.Wait.{Answers, with_sizes}
use openfpm_vcluster.Semantic.Reorder.{Buffer, Entry, no_tag, entries, reorder_buffer}
use openfpm_vcluster.Semantic.Reorder.Order.{
  IsSort, Arrival, NotAfter, bufs_of, procs_of, sizes_of, tags_of, reordered, reorder_buffer-orders,
}
use openfpm_vcluster.Semantic.Alloc.{
  Memory, msg_alloc_known, set_info, reset_recv_buf, write_buffers,
}
use openfpm_vcluster.Semantic.Alloc.Recording.{update_same}
use openfpm_vcluster.Semantic.Delivery.Contents.{
  carrying, bufs_of-carrying, procs_of-carrying, tags_of-carrying, sizes_of-carrying,
}
use openfpm_vcluster.Semantic.Pack.{request_all, pack_all, messages}
use openfpm_vcluster.Semantic.Pack.Unpack.{Unpacking}
use openfpm_vcluster.Semantic.Send.{
  Vcluster, Request, has_flag, receive_known, known_element_or_byte, known_bytes, set_bytes,
  resized, packed_of, post_sends, fill_and_post, complete, ssend_recv, with_contents,
}
use openfpm_vcluster.Semantic.Send.Announced.{awaited, async_known-Awaits, nbx_wait-known}
use openfpm_vcluster.Semantic.Send.Starting.{IsIdle, posted, prepare-lone}
use openfpm_vcluster.Semantic.Send.Exchanging.{complete-lone, finished, finished-IsIdle}

-- The sizes of the receives: each number of elements by sizeof(typename T::value_type)
abbrev pub element_bytes : ℕ → List ℕ → List ℕ
element_bytes w = map λ n. n * w % 2 ^ 64

known_bytes_lem : (w : ℕ) (ns old : List ℕ) → known_bytes (some w) ns old ≡ element_bytes w ns
unfolding known_bytes
known_bytes_lem w [] old = refl
known_bytes_lem w (n ∷ ns) old = ap (λ bs. n * w % 2 ^ 64 ∷ bs) (known_bytes_lem w ns old)

-- The senders with the sizes beside them
abbrev pub beside : List ℕ → List ℕ → List Incoming
beside (p ∷ ps) (z ∷ zs) = record { prc = p; sz = z } ∷ beside ps zs
beside _ _ = []

with_sizes-beside :
    (ps zs : List ℕ) → length ps ≡ length zs → with_sizes ps zs ≡ some (beside ps zs)
unfolding with_sizes
with_sizes-beside [] zs e = refl
with_sizes-beside (p ∷ ps) [] e = absurd (omega (arith, e))
with_sizes-beside (p ∷ ps) (z ∷ zs) e = rw (with_sizes-beside ps zs (omega (arith, e))) refl

procs_of-awaited : (ps zs : List ℕ) → length ps ≡ length zs → procs_of (awaited (beside ps zs)) ≡ ps
procs_of-awaited [] [] e = refl
procs_of-awaited [] (z ∷ zs) e = refl
procs_of-awaited (p ∷ ps) [] e = absurd (omega (arith, e))
procs_of-awaited (p ∷ ps) (z ∷ zs) e = ap (λ qs. p ∷ qs) (procs_of-awaited ps zs (omega (arith, e)))

sizes_of-awaited : (ps zs : List ℕ) → length ps ≡ length zs → sizes_of (awaited (beside ps zs)) ≡ zs
sizes_of-awaited [] [] e = refl
sizes_of-awaited [] (z ∷ zs) e = absurd (omega (arith, e))
sizes_of-awaited (p ∷ ps) [] e = absurd (omega (arith, e))
sizes_of-awaited (p ∷ ps) (z ∷ zs) e = ap (λ ys. z ∷ ys) (sizes_of-awaited ps zs (omega (arith, e)))

tags_of-awaited : (ins : List Incoming) → tags_of (awaited ins) ≡ replicate (length ins) no_tag
tags_of-awaited [] = refl
tags_of-awaited (n ∷ ns) = ap (λ ts. no_tag ∷ ts) (tags_of-awaited ns)

-- Where there are no tags, reorder_buffer takes `no_tag` for each.
entries-untagged :
    (i n : ℕ) (bs : List Buffer) (ps : List ℕ)
    → entries i bs ps (replicate n no_tag) ≡ entries i bs ps []
unfolding entries
entries-untagged i n [] ps = refl
entries-untagged i zero (b ∷ bs) ps = refl
entries-untagged i (suc n) (b ∷ bs) [] = refl
entries-untagged i (suc n) (b ∷ bs) (p ∷ ps) = rw (entries-untagged (i + 1) n bs ps) refl

reorder_buffer-untagged :
    (sort : List Entry → List Entry) (n : ℕ) (bs : List Buffer) (ps zs : List ℕ)
    → reorder_buffer sort bs ps [] zs ≡ reorder_buffer sort bs ps (replicate n no_tag) zs
unfolding reorder_buffer
reorder_buffer-untagged sort n bs ps zs = rw (entries-untagged 0 n bs ps) refl

-- The vectors when the exchange starts
abbrev pub known_memory : Request → ℕ → Memory → Memory
known_memory r w m =
    set_bytes 0 (element_bytes w r.sz_recv)
      (set_info 0 r.prc_recv r.opt (reset_recv_buf 0 (resized 0 (length r.sz_recv) m)))

-- The messages for the objects to send, as the calls with known receivers make them
abbrev pub known_messages_of : Request → Option (List Outgoing)
known_messages_of r =
    let sizes = request_all r.send (0, []) in
    let packed = pack_all r.send (record { base = r.base; written = [] }, []) in
    messages r.prc_send sizes.1 packed.1

-- The messages that the call is to receive
abbrev pub expected : Request → ℕ → Vcluster → List Arrival
expected r w s = awaited (beside (s.nbx.mem.prc r.prc_recv) (element_bytes w r.sz_recv))

abbrev known_start : Request → ℕ → Vcluster → Nbx Memory
known_start r w s = record s.nbx { mem = known_memory r w s.nbx.mem }

pub fill_and_post-known :
    (r : Request) (s : Vcluster) (outs : List Outgoing) (w : ℕ)
    → IsIdle s
    → has_flag r.opt receive_known ≡ true
    → has_flag r.opt known_element_or_byte ≡ true
    → r.value_size ≡ some w
    → length (s.nbx.mem.prc r.prc_recv) ≡ length (element_bytes w r.sz_recv)
    → known_messages_of r ≡ some outs
    → fill_and_post r s
      ≡ some (
          async_known outs
            (beside (s.nbx.mem.prc r.prc_recv) (element_bytes w r.sz_recv))
            msg_alloc_known
            0
            (known_start r w s))
unfolding fill_and_post post_sends set_info reset_recv_buf
fill_and_post-known r s outs w h k b v l e =
    rw (k, b, h.scnt, e, v)
      (rw (known_bytes_lem w r.sz_recv)
        (rw (with_sizes-beside (s.nbx.mem.prc r.prc_recv) (element_bytes w r.sz_recv) l) refl))

module _ (m : Mpi) (sort : List Entry → List Entry) (good : IsSort sort) {S : Type 0}
    (unpack : List Buffer → Unpacking S → Option (Unpacking S)) (u : Unpacking S) where
  -- reorder_buffer, on the vectors as the wait leaves them
  Arranges-awaited :
      (caller : ℕ) (cs : List Buffer) (ins : List Incoming) (bs : List Buffer) (ps ts zs : List ℕ)
      → bs ≡ bufs_of (awaited ins)
      → ps ≡ procs_of (awaited ins)
      → ts ≡ []
      → zs ≡ sizes_of (awaited ins)
      → (rs : List Arrival) × (reorder_buffer sort (write_buffers cs bs) ps ts zs
          ≡ some (reordered rs))
        × Perm rs (carrying cs (awaited ins))
        × Pairwise NotAfter rs
  Arranges-awaited caller cs ins bs ps ts zs e f g h =
      let all = carrying cs (awaited ins) in
      let (rs, done, p, o) = reorder_buffer-orders sort good all in
      let tags : replicate (length ins) no_tag ≡ tags_of all =
        sym (tags_of-awaited ins) ∙ tags_of-carrying cs (awaited ins) in
      (
        rs,
        rw
            (
              e,
              f,
              g,
              h,
              bufs_of-carrying cs (awaited ins),
              procs_of-carrying cs (awaited ins),
              sizes_of-carrying cs (awaited ins),
            )
            (reorder_buffer-untagged sort (length ins) (bufs_of all) (procs_of all) (sizes_of all)
              ∙ ap (λ t. reorder_buffer sort (bufs_of all) (procs_of all) t (sizes_of all)) tags
              ∙ done),
        p,
        o,
      )

  -- A synchronous call with known senders and numbers of elements, of a type whose elements are sent
  -- as they are, made where no call is outstanding and no tags are left of an earlier one, with as
  -- many numbers as senders, an unpacking that always ends, and objects that make messages as they
  -- should: it returns, whatever MPI answers. The buffers that were unpacked have room for the
  -- announced numbers of elements, and hold what MPI wrote to them, one for each sender, in the order
  -- of the senders, in which the caller's vector holds them too; the memory of the call is deleted;
  -- and no call is outstanding.
  pub ssend_recv-known :
      (r : Request) (a : Answers) (s : Vcluster) (outs : List Outgoing) (w : ℕ)
      → IsIdle s
      → has_flag r.opt receive_known ≡ true
      → has_flag r.opt known_element_or_byte ≡ true
      → r.value_size ≡ some w
      → s.nbx.mem.tags 0 ≡ []
      → length (s.nbx.mem.prc r.prc_recv) ≡ length r.sz_recv
      → known_messages_of r ≡ some outs
      → ((bufs : List Buffer) → (v : Unpacking S) × (unpack bufs u ≡ some v))
      → (t : Vcluster) × (v : Unpacking S) × (bs : List Arrival) × (ssend_recv m sort unpack r a u s
          ≡ some (t, v))
        × (unpack (bufs_of bs) u ≡ some v)
        × Perm bs (carrying (a.contents 0) (expected r w s))
        × Pairwise NotAfter bs
        × (t.nbx.mem.prc r.prc_recv ≡ procs_of bs)
        × (t.mem 0 ≡ none)
        × IsIdle t
  unfolding ssend_recv set_info reset_recv_buf
  ssend_recv-known r a s outs w h k b v tags l e total =
      let ps = s.nbx.mem.prc r.prc_recv in
      let zs = element_bytes w r.sz_recv in
      let both : length ps ≡ length zs = l ∙ sym (length-map (λ n. n * w % 2 ^ 64) r.sz_recv) in
      let ins = beside ps zs in
      let start = known_start r w s in
      let n = async_known outs ins msg_alloc_known 0 start in
      let x = async_known-Awaits outs ins start h.queued refl refl in
      let made = prepare-lone r s n h (fill_and_post-known r s outs w h k b v both e) in
      let (done, wait, mem, queued, cycle, free) =
        nbx_wait-known m a n (omega (arith, x.cycle, h.cycle)) x.active
          (λ j q. x.others j q ∙ h.active j) in
      let (bs, arranges, came, sorted) =
        Arranges-awaited r.prc_recv (a.contents 0) ins (done.mem.recv_buf 0)
          (done.mem.prc r.prc_recv) (done.mem.tags 0) (done.mem.sz 0)
          (ap (λ y. y.recv_buf 0) mem ∙ x.room.bufs)
          (ap (λ y. y.prc r.prc_recv) mem
            ∙ ap (λ f. f r.prc_recv) x.room.prc
            ∙ sym (procs_of-awaited ps zs both))
          (ap (λ y. y.tags 0) mem ∙ ap (λ f. f 0) x.room.tags ∙ tags)
          (ap (λ y. y.sz 0) mem ∙ ap (λ f. f 0) x.room.sz ∙ sym (sizes_of-awaited ps zs both)) in
      let t = posted r s n in
      let y = with_contents a done in
      let placed : t.mem 0 ≡ some (packed_of r) = rw h.scnt refl in
      let (out, unpacked) = total (bufs_of bs) in
      let end =
        complete-lone m sort unpack r.prc_recv a u out t done bs h.pcnt (packed_of r) placed wait
          arranges unpacked in
      (
        finished 0 r.prc_recv bs y t,
        out,
        bs,
        rw made (
            subst
              (λ j.
                complete m sort unpack j r.prc_recv a u t
                ≡ some (finished 0 r.prc_recv bs y t, out))
              (sym h.scnt) end),
        unpacked,
        came,
        sorted,
        update_same y.mem.prc r.prc_recv (procs_of bs),
        refl,
        finished-IsIdle m sort good unpack u r.prc_recv bs s t y h refl refl queued
            (cycle ∙ x.cycle) free,
      )
