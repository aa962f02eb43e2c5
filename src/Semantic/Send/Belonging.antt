-- ===== src/Semantic/Send/Belonging.antt =====
-- That the messages of an exchange belong to it (VCluster/VCluster_base.hpp: the tags and sizes of
-- queue_all_sends, and how progressCommunication reads them).
use openfpm_vcluster.Prelude.{
  ℕ, ◌+◌, ◌≤◌, ◌<◌, ◌≡◌, ap, ◌∙◌, not, ◌&&◌, some, List, [], ◌∷◌, length, map, All, All-append,
  ◌==◌, Bool-cases, inl, inr, arith,
}
use openfpm_vcluster.Wire.{Mpi, IsStandard, int_max, probe_size}
use openfpm_vcluster.Wire.Sizes.{Received_lem}
use openfpm_vcluster.Tags.{tag_span}
use openfpm_vcluster.Tags.Decoding.{slot_of_tag-sparse_tag}
use openfpm_vcluster.Nbx.State.{Outgoing}
use openfpm_vcluster.Semantic.Reorder.{Buffer}
use openfpm_vcluster.Semantic.Pack.{Column, Vector}
use openfpm_vcluster.Semantic.Pack.Sending.{outgoing_of, all_outgoing}
use openfpm_vcluster.Semantic.Pack.InOrder.{InMemory}
use openfpm_vcluster.Semantic.Pack.Network.{
  arrivals, Readable, Posting, posted_to, all_posted, Sender, posting_of,
}
use openfpm_vcluster.Semantic.Send.Shown.{found_size, Belongs}

-- The pieces of memory have at most 2147483647 bytes.
abbrev pub Small : List Column → Type 0
Small = All λ c. length c.bytes ≤ int_max

-- The sender takes part in the exchange that is the first of its queue at NBX_cnt `cnt`, with at
-- most 131072 messages, none of more than 2147483647 bytes.
abbrev pub TakesPart : ℕ → Sender → Type 0
TakesPart cnt s =
    (s.cnt ≡ cnt)
    × (s.position ≡ 0)
    × (length (all_outgoing s.prc_send s.send) ≤ tag_span)
    × All (λ v. Small v.columns) s.send

-- The same, for a process by the messages that it posts
abbrev pub Joins : ℕ → Posting → Type 0
Joins cnt s =
    (s.cnt ≡ cnt) × (s.position ≡ 0) × (length s.outs ≤ tag_span) × All (Readable s.read) s.outs

outgoing_of-Readable :
    (read : ℕ → ℕ → Buffer) (p : ℕ) (cs : List Column)
    → InMemory read cs
    → Small cs
    → All (Readable read) (outgoing_of p cs)
outgoing_of-Readable read p [] m k = tt
outgoing_of-Readable read p (c ∷ cs) (m, ms) (k, ks) =
    ((k, ap length m), outgoing_of-Readable read p cs ms ks)

all_outgoing-Readable :
    (read : ℕ → ℕ → Buffer) (ps : List ℕ) (vs : List Vector)
    → All (λ v. InMemory read v.columns) vs
    → All (λ v. Small v.columns) vs
    → All (Readable read) (all_outgoing ps vs)
all_outgoing-Readable read [] vs m k = tt
all_outgoing-Readable read (p ∷ ps) [] m k = tt
all_outgoing-Readable read (p ∷ ps) (v ∷ vs) (m, ms) (k, ks) =
    All-append (Readable read) (outgoing_of p v.columns) (all_outgoing ps vs)
      (outgoing_of-Readable read p v.columns m k) (all_outgoing-Readable read ps vs ms ks)

pub TakesPart-Joins :
    (cnt : ℕ) (ss : List Sender)
    → All (TakesPart cnt) ss
    → All (λ (s : Sender). All (λ v. InMemory s.read v.columns) s.send) ss
    → All (Joins cnt) (map posting_of ss)
TakesPart-Joins cnt [] h k = tt
TakesPart-Joins cnt (s ∷ ss) ((e, q, l, z), h) (k, ks) =
    ((e, q, l, all_outgoing-Readable s.read s.prc_send s.send k z), TakesPart-Joins cnt ss h ks)

module _ (m : Mpi) (std : IsStandard m) where
  found_small : (n : ℕ) → n ≤ int_max → found_size (probe_size m n) ≡ some n
  found_small n h = let (p, e, k, w) = Received_lem m std n h in rw e (ap some k)

  pub arrivals-Belongs :
      (who r cnt : ℕ) (read : ℕ → ℕ → Buffer) (i : ℕ) (outs : List Outgoing)
      → cnt < 2147483648
      → i + length outs ≤ tag_span
      → All (Readable read) outs
      → All (Belongs m cnt) (arrivals who r cnt 0 read i outs)
  arrivals-Belongs who r cnt read i [] c l h = tt
  arrivals-Belongs who r cnt read i (o ∷ os) c l ((z, k), h) =
      let rest = arrivals-Belongs who r cnt read (i + 1) os c (omega (arith, l)) h in
      let (slot, window) =
        slot_of_tag-sparse_tag cnt cnt 0 i 1 (omega (arith, l)) (omega arith) (omega (arith, c))
          (omega arith) in
      elim (Bool-cases (not (o.sz == 0) && (o.prc == r))) [
        | inl e ↦ rw e ((slot ∙ omega arith, window, found_small o.sz z, k), rest)
        | inr e ↦ rw e rest
      ]

  -- The messages that the processes of one exchange post belong to that exchange.
  pub all_posted-Belongs :
      (r cnt : ℕ) (ss : List Posting)
      → cnt < 2147483648
      → All (Joins cnt) ss
      → All (Belongs m cnt) (all_posted r ss)
  all_posted-Belongs r cnt [] c h = tt
  all_posted-Belongs r cnt (s ∷ ss) c ((e, q, l, z), h) =
      All-append (Belongs m cnt) (posted_to r s) (all_posted r ss)
        (rw (e, q) (arrivals-Belongs s.rank r cnt s.read 0 s.outs c (omega (arith, l)) z))
        (all_posted-Belongs r cnt ss c h)
