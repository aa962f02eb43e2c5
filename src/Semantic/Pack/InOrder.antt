-- ===== src/Semantic/Pack/InOrder.antt =====
-- The vectors that a process receives, from the sends of all processes to the end of the unpacking
-- (VCluster/VCluster.hpp and VCluster/VCluster_meta_function.hpp, and the tags of queue_all_sends in
-- VCluster/VCluster_base.hpp).
use mathlib.Core.List.{Perm}
use openfpm_vcluster.Prelude.{
  ℕ, zero, suc, ◌+◌, ◌*◌, ◌<◌, ◌≡◌, refl, sym, ap, ap₂, ◌∙◌, true, false, not, ◌&&◌, some, List, [],
  ◌∷◌, ◌++◌, length, append_assoc, All, All-append, arith, ◌==◌, Bool-cases, inl, inr,
}
use openfpm_vcluster.Nbx.State.{Outgoing}
use openfpm_vcluster.Semantic.Reorder.{Buffer, Entry, Reordered, reorder_buffer}
use openfpm_vcluster.Semantic.Reorder.Order.{
  IsSort, Arrival, bufs_of, procs_of, tags_of, sizes_of, reordered,
}
use openfpm_vcluster.Semantic.Reorder.Unique.{reorder_buffer-sorted}
use openfpm_vcluster.Semantic.Pack.{Column, Layout, Vector, widths}
use openfpm_vcluster.Semantic.Pack.Sending.{Fits, IsVector, outgoing_of, all_outgoing}
use openfpm_vcluster.Semantic.Pack.RoundTrip.{
  bytes_of, buffers_of, merge_all, Positive, prepared, process_receive_buffer-merge_all,
}
use openfpm_vcluster.Semantic.Pack.Unpack.{Unpacking, View, process_receive_buffer}
use openfpm_vcluster.Semantic.Pack.Network.{
  arrivals, Sender, sent_to, all_sent, addressed, all_addressed, Ranked, Chain-Pairwise,
  all_sent-Chain,
}

-- What MPI sends from the address of a piece of memory is what the piece holds.
abbrev pub InMemory : (ℕ → ℕ → Buffer) → List Column → Type 0
InMemory read = All λ c. read c.address (length c.bytes) ≡ c.bytes

empty_column : (w n k : ℕ) → 0 < w → k ≡ w * n → (k == 0) ≡ (n == 0)
empty_column w zero k p e = let z : k ≡ 0 = omega arith in ap (λ x. x == 0) z
empty_column (suc w) (suc n) k p e = let z : 0 < k = omega arith in ground arith
empty_column zero (suc n) k p e = absurd (omega arith)

module _ (who r cnt q : ℕ) (read : ℕ → ℕ → Buffer) where
  sent_vector :
      (ws : List ℕ) (n p : ℕ) (cs : List Column) (i : ℕ) (outs : List Outgoing)
      → (not (n == 0) && (p == r)) ≡ true
      → Positive ws
      → Fits ws n cs
      → InMemory read cs
      → (j : ℕ) × (bufs_of (arrivals who r cnt q read i (outgoing_of p cs ++ outs))
          ≡ bytes_of cs ++ bufs_of (arrivals who r cnt q read j outs))
  sent_vector [] n p [] i outs e o f m = (i, refl)
  sent_vector (w ∷ ws) n p (c ∷ cs) i outs e (o, os) (f, fs) (m, ms) =
      let (j, rest) = sent_vector ws n p cs (i + 1) outs e os fs ms in
      (j, rw (empty_column w n (length c.bytes) o f, e, m, rest))
  sent_vector [] n p (c ∷ cs) i outs e o f m = absurd f
  sent_vector (w ∷ ws) n p [] i outs e o f m = absurd f

  skipped_vector :
      (ws : List ℕ) (n p : ℕ) (cs : List Column) (i : ℕ) (outs : List Outgoing)
      → (not (n == 0) && (p == r)) ≡ false
      → Positive ws
      → Fits ws n cs
      → (j : ℕ) × (bufs_of (arrivals who r cnt q read i (outgoing_of p cs ++ outs))
          ≡ bufs_of (arrivals who r cnt q read j outs))
  skipped_vector [] n p [] i outs e o f = (i, refl)
  skipped_vector (w ∷ ws) n p (c ∷ cs) i outs e (o, os) (f, fs) =
      let (j, rest) = skipped_vector ws n p cs (i + 1) outs e os fs in
      (j, rw (empty_column w n (length c.bytes) o f, e, rest))
  skipped_vector [] n p (c ∷ cs) i outs e o f = absurd f
  skipped_vector (w ∷ ws) n p [] i outs e o f = absurd f

  sent-addressed :
      (l : Layout) (i : ℕ) (ps : List ℕ) (vs : List Vector)
      → Positive (widths l)
      → All (IsVector l) vs
      → All (λ v. InMemory read v.columns) vs
      → bufs_of (arrivals who r cnt q read i (all_outgoing ps vs)) ≡ buffers_of (addressed r ps vs)
  sent-addressed l i [] vs o f m = refl
  sent-addressed l i (p ∷ ps) [] o f m = refl
  sent-addressed l i (p ∷ ps) (v ∷ vs) o (f, fs) (m, ms) =
      elim (Bool-cases (not (v.size == 0) && (p == r))) [
        | inl e ↦
            let (j, h) = sent_vector (widths l) v.size p v.columns i (all_outgoing ps vs) e o f m in
            rw e (h ∙ ap (λ x. bytes_of v.columns ++ x) (sent-addressed l j ps vs o fs ms))
        | inr e ↦
            let (j, h) =
              skipped_vector (widths l) v.size p v.columns i (all_outgoing ps vs) e o f in
            rw e (h ∙ sent-addressed l j ps vs o fs ms)
      ]

-- The sender's vectors have the layout, and lie in its memory.
abbrev pub IsSender : Layout → Sender → Type 0
IsSender l s = All (IsVector l) s.send × All (λ v. InMemory s.read v.columns) s.send

pub bufs_of-append : (xs ys : List Arrival) → bufs_of (xs ++ ys) ≡ bufs_of xs ++ bufs_of ys
bufs_of-append [] ys = refl
bufs_of-append (x ∷ xs) ys = ap (λ z. x.buf ∷ z) (bufs_of-append xs ys)

buffers_of-append : (xs ys : List Vector) → buffers_of (xs ++ ys) ≡ buffers_of xs ++ buffers_of ys
buffers_of-append [] ys = refl
buffers_of-append (x ∷ xs) ys =
    ap (λ z. bytes_of x.columns ++ z) (buffers_of-append xs ys)
    ∙ sym (append_assoc (bytes_of x.columns) (buffers_of xs) (buffers_of ys))

all_sent-addressed :
    (l : Layout) (r : ℕ) (ss : List Sender)
    → Positive (widths l)
    → All (IsSender l) ss
    → bufs_of (all_sent r ss) ≡ buffers_of (all_addressed r ss)
all_sent-addressed l r [] o h = refl
all_sent-addressed l r (s ∷ ss) o (h, hs) =
    bufs_of-append (sent_to r s) (all_sent r ss)
    ∙ ap₂ (λ (x y : List Buffer). x ++ y)
        (sent-addressed s.rank r s.cnt s.position s.read l 0 s.prc_send s.send o h.0 h.1)
        (all_sent-addressed l r ss o hs)
    ∙ sym (buffers_of-append (addressed r s.prc_send s.send) (all_addressed r ss))

addressed-All :
    (P : Vector → Type 0) (r : ℕ) (ps : List ℕ) (vs : List Vector)
    → All P vs
    → All P (addressed r ps vs)
addressed-All P r [] vs h = tt
addressed-All P r (p ∷ ps) [] h = tt
addressed-All P r (p ∷ ps) (v ∷ vs) (h, hs) = elim (Bool-cases (not (v.size == 0) && (p == r))) [
  | inl e ↦ rw e (h, addressed-All P r ps vs hs)
  | inr e ↦ rw e (addressed-All P r ps vs hs)
]

all_addressed-All :
    (l : Layout) (r : ℕ) (ss : List Sender)
    → All (IsSender l) ss
    → All (IsVector l) (all_addressed r ss)
all_addressed-All l r [] h = tt
all_addressed-All l r (s ∷ ss) (h, hs) =
    All-append (IsVector l) (addressed r s.prc_send s.send) (all_addressed r ss)
      (addressed-All (IsVector l) r s.prc_send s.send h.0) (all_addressed-All l r ss hs)

module _ {S : Type 0} (size : S → ℕ) (merge : ℕ → View → S → S) where
  -- The messages for a process are unpacked to the vectors addressed to it.
  pub process_receive_buffer-all_sent :
      (l : Layout) (r : ℕ) (ss : List Sender) (u : Unpacking S)
      → 0 < length (widths l)
      → Positive (widths l)
      → All (IsSender l) ss
      → process_receive_buffer size merge l (length (widths l)) (bufs_of (all_sent r ss)) u
        ≡ some (
            merge_all size merge
              (length (widths l))
              0
              (all_addressed r ss)
              (prepared (length (bufs_of (all_sent r ss))) u))
  process_receive_buffer-all_sent l r ss u n p h = rw (all_sent-addressed l r ss p h) (
      process_receive_buffer-merge_all size merge l (all_addressed r ss) u n p
        (all_addressed-All l r ss h))

  module _ (sort : List Entry → List Entry) (good : IsSort sort) where
    -- An exchange of vectors, of one layout, between any processes, each of which sends each of its
    -- vectors to the process beside it in `prc_send`; `r` is a process, `rs` are the messages it
    -- received, in any order, which are those that were sent to it. Then reorder_buffer and
    -- process_receive_buffer_with_prp together do what one loop over vectors does that merges the
    -- vectors addressed to `r`: each once, unless it is empty, with its number of elements and its
    -- bytes, in the order of the senders' ranks, and those of one sender in the order in which it
    -- sent them.
    pub exchange-merge_all :
        (l : Layout) (r : ℕ) (ss : List Sender) (rs : List Arrival) (u : Unpacking S)
        → 0 < length (widths l)
        → Positive (widths l)
        → Ranked 0 ss
        → All (IsSender l) ss
        → Perm rs (all_sent r ss)
        → (o : Reordered) × (reorder_buffer sort
              (bufs_of rs)
              (procs_of rs)
              (tags_of rs)
              (sizes_of rs)
            ≡ some o)
          × (o.prc ≡ procs_of (all_sent r ss))
          × (process_receive_buffer size merge l (length (widths l)) o.recv_buf u
              ≡ some (
                  merge_all size merge
                    (length (widths l))
                    0
                    (all_addressed r ss)
                    (prepared (length o.recv_buf) u)))
    exchange-merge_all l r ss rs u n p k h m = (
      reordered (all_sent r ss),
      reorder_buffer-sorted sort good rs (all_sent r ss) m
          (Chain-Pairwise 0 0 (all_sent r ss) (all_sent-Chain r 0 ss k)),
      refl,
      process_receive_buffer-all_sent l r ss u n p h,
    )
