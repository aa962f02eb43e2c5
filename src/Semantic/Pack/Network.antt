-- ===== src/Semantic/Pack/Network.antt =====
-- What arrives of the messages that the processes send, and the order of its senders and tags
-- (VCluster/VCluster_base.hpp: queue_all_sends; VCluster/VCluster.hpp: the order of reorder_buffer).
use mathlib.Core.List.{Memᴰ, Pairwise, Pairwise-cons}
use mathlib.Core.Logic.{∥∥₁_elim}
use openfpm_vcluster.Prelude.{
  ℕ, suc, ◌+◌, ◌≤◌, ◌≡◌, refl, ap, subst, map, false, not, ◌&&◌, List, [], ◌∷◌, ◌++◌, length, arith,
  ◌==◌, if◌then◌else◌, Bool-cases, inl, inr,
}
use openfpm_vcluster.Wire.{int_max}
use openfpm_vcluster.Tags.{sparse_tag}
use openfpm_vcluster.Nbx.State.{Outgoing}
use openfpm_vcluster.Semantic.Reorder.{Buffer, before}
use openfpm_vcluster.Semantic.Reorder.Order.{Arrival}
use openfpm_vcluster.Semantic.Reorder.Unique.{Before}
use openfpm_vcluster.Semantic.Pack.{Vector}
use openfpm_vcluster.Semantic.Pack.Sending.{all_outgoing}

-- What arrives at process `r` of the messages `outs` of the process `who`, from message `i` on: those
-- that queue_all_sends posts to `r`, under their tags. `read` is the memory of the sender.
abbrev pub arrivals : (who r cnt q : ℕ) → (ℕ → ℕ → Buffer) → ℕ → List Outgoing → List Arrival
arrivals who r cnt q read i [] = []
arrivals who r cnt q read i (o ∷ os) =
    let rest = arrivals who r cnt q read (i + 1) os in
    if not (o.sz == 0) && (o.prc == r)
    then record { proc = who; tag = sparse_tag cnt q i; buf = read o.ptr o.sz; sz = o.sz } ∷ rest
    else rest

-- A message of at most 2147483647 bytes, all of which MPI reads
abbrev pub Readable : (ℕ → ℕ → Buffer) → Outgoing → Type 0
Readable read o = (o.sz ≤ int_max) × (length (read o.ptr o.sz) ≡ o.sz)

-- A process that sends: its rank, its NBX_cnt, the position of the call in its queue, the messages
-- that it posts, and its memory.
pub record Posting : Type 0 where
  pub rank : ℕ
  pub cnt : ℕ
  pub position : ℕ
  pub outs : List Outgoing
  pub read : ℕ → ℕ → Buffer

abbrev pub posted_to : ℕ → Posting → List Arrival
posted_to r s = arrivals s.rank r s.cnt s.position s.read 0 s.outs

abbrev pub all_posted : ℕ → List Posting → List Arrival
all_posted r [] = []
all_posted r (s ∷ ss) = posted_to r s ++ all_posted r ss

-- The ranks increase, from `lo` on.
abbrev pub InRanks : ℕ → List Posting → Type 0
InRanks lo [] = Unit
InRanks lo (s ∷ ss) = (lo ≤ s.rank) × InRanks (s.rank + 1) ss

-- A process that sends vectors: the processes it sends to, and the vectors for them.
pub record Sender : Type 0 where
  pub rank : ℕ
  pub cnt : ℕ
  pub position : ℕ
  pub prc_send : List ℕ
  pub send : List Vector
  pub read : ℕ → ℕ → Buffer

abbrev pub posting_of : Sender → Posting
posting_of s = record {
  rank = s.rank;
  cnt = s.cnt;
  position = s.position;
  outs = all_outgoing s.prc_send s.send;
  read = s.read;
}

abbrev pub sent_to : ℕ → Sender → List Arrival
sent_to r s = arrivals s.rank r s.cnt s.position s.read 0 (all_outgoing s.prc_send s.send)

abbrev pub all_sent : ℕ → List Sender → List Arrival
all_sent r [] = []
all_sent r (s ∷ ss) = sent_to r s ++ all_sent r ss

pub all_sent-posted : (r : ℕ) (ss : List Sender) → all_posted r (map posting_of ss) ≡ all_sent r ss
all_sent-posted r [] = refl
all_sent-posted r (s ∷ ss) = ap (λ rest. sent_to r s ++ rest) (all_sent-posted r ss)

-- The vectors for process `r` that are not empty
abbrev pub addressed : ℕ → List ℕ → List Vector → List Vector
addressed r (p ∷ ps) (v ∷ vs) =
    let rest = addressed r ps vs in if not (v.size == 0) && (p == r) then v ∷ rest else rest
addressed r _ _ = []

abbrev pub all_addressed : ℕ → List Sender → List Vector
all_addressed r [] = []
all_addressed r (s ∷ ss) = addressed r s.prc_send s.send ++ all_addressed r ss

-- The ranks increase, from `lo` on.
abbrev pub Ranked : ℕ → List Sender → Type 0
Ranked lo [] = Unit
Ranked lo (s ∷ ss) = (lo ≤ s.rank) × Ranked (s.rank + 1) ss

pub Ranked-InRanks : (lo : ℕ) (ss : List Sender) → Ranked lo ss → InRanks lo (map posting_of ss)
Ranked-InRanks lo [] h = tt
Ranked-InRanks lo (s ∷ ss) (l, h) = (l, Ranked-InRanks (s.rank + 1) ss h)

-- Each message comes after those before it, and none before the key of `p` and `t`.
abbrev pub Chain : ℕ → ℕ → List Arrival → Type 0
Chain p t [] = Unit
Chain p t (a ∷ as') = (before a.proc a.tag p t ≡ false) × Chain a.proc (suc a.tag) as'

before_trans :
    (p t : ℕ) (x a : Arrival)
    → before a.proc a.tag p t ≡ false
    → before x.proc x.tag a.proc (suc a.tag) ≡ false
    → before x.proc x.tag p t ≡ false
unfolding before
before_trans p t x a h k = ground arith

before_next : (x a : Arrival) → before x.proc x.tag a.proc (suc a.tag) ≡ false → Before a x
unfolding before
before_next x a h = ground arith

Chain-mem :
    (p t : ℕ) (as' : List Arrival)
    → Chain p t as'
    → (x : Arrival) → Memᴰ x as'
    → before x.proc x.tag p t ≡ false
Chain-mem p t [] h x m = elim m [ ]
Chain-mem p t (a ∷ as') (h, k) x (Memᴰ.head q) = rw q h
Chain-mem p t (a ∷ as') (h, k) x (Memᴰ.tail m) =
    before_trans p t x a h (Chain-mem a.proc (suc a.tag) as' k x m)

Before-prop : (a x : Arrival) → IsProp (Before a x)
Before-prop a x = hlevel

pub Chain-Pairwise : (p t : ℕ) (as' : List Arrival) → Chain p t as' → Pairwise Before as'
Chain-Pairwise p t [] h = Pairwise.nil
Chain-Pairwise p t (a ∷ as') (h, k) = Pairwise-cons.1 (
  λ x m.
      ∥∥₁_elim m (Before-prop a x) (λ n. before_next x a (Chain-mem a.proc (suc a.tag) as' k x n)),
  Chain-Pairwise a.proc (suc a.tag) as' k,
)

lower :
    (p t p' t' : ℕ) (as' : List Arrival)
    → before p' t' p t ≡ false
    → Chain p' t' as'
    → Chain p t as'
unfolding before
lower p t p' t' [] h k = tt
lower p t p' t' (a ∷ as') h (k, l) = (ground arith, l)

next_process : (p t : ℕ) → before (suc p) 0 p t ≡ false
unfolding before
next_process p t = ground arith

next_message : (p cnt q i : ℕ) → before p (sparse_tag cnt q (i + 1)) p (sparse_tag cnt q i) ≡ false
unfolding before sparse_tag
next_message p cnt q i = ground arith

same_tag :
    (p cnt q i : ℕ) → before p (sparse_tag cnt q (i + 1)) p (suc (sparse_tag cnt q i)) ≡ false
unfolding before sparse_tag
same_tag p cnt q i = ground arith

not_before_self : (p t : ℕ) → before p t p t ≡ false
unfolding before
not_before_self p t = ground arith

arrivals-Chain :
    (who r cnt q : ℕ) (read : ℕ → ℕ → Buffer) (i : ℕ) (outs : List Outgoing) (rest : List Arrival)
    → Chain (suc who) 0 rest
    → Chain who (sparse_tag cnt q i) (arrivals who r cnt q read i outs ++ rest)
arrivals-Chain who r cnt q read i [] rest h =
    lower who (sparse_tag cnt q i) (suc who) 0 rest (next_process who _) h
arrivals-Chain who r cnt q read i (o ∷ os) rest h =
    let k = arrivals-Chain who r cnt q read (i + 1) os rest h in
    elim (Bool-cases (not (o.sz == 0) && (o.prc == r))) [
      | inl e ↦ rw e (
        not_before_self who (sparse_tag cnt q i),
        lower who (suc (sparse_tag cnt q i)) who (sparse_tag cnt q (i + 1)) _ (same_tag who cnt q i)
            k,
      )
      | inr e ↦ rw e (
          lower who (sparse_tag cnt q i) who (sparse_tag cnt q (i + 1)) _ (next_message who cnt q i)
            k)
    ]

rank_before : (lo p t : ℕ) → lo ≤ p → before p t lo 0 ≡ false
unfolding before
rank_before lo p t h = ground arith

pub all_posted-Chain : (r lo : ℕ) (ss : List Posting) → InRanks lo ss → Chain lo 0 (all_posted r ss)
all_posted-Chain r lo [] h = tt
all_posted-Chain r lo (s ∷ ss) (l, h) =
    lower lo 0 s.rank (sparse_tag s.cnt s.position 0) _ (rank_before lo s.rank _ l) (
      arrivals-Chain s.rank r s.cnt s.position s.read 0 s.outs (all_posted r ss) (
        subst (λ n. Chain n 0 (all_posted r ss)) (omega arith)
          (all_posted-Chain r (s.rank + 1) ss h)))

pub all_sent-Chain : (r lo : ℕ) (ss : List Sender) → Ranked lo ss → Chain lo 0 (all_sent r ss)
all_sent-Chain r lo ss h =
    subst (Chain lo 0) (all_sent-posted r ss)
      (all_posted-Chain r lo (map posting_of ss) (Ranked-InRanks lo ss h))
