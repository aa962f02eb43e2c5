-- ===== src/Semantic/Alloc/Recording.antt =====
-- That the call-back msg_alloc keeps its four vectors in step (VCluster/VCluster.hpp).
use openfpm_vcluster.Prelude.{
  ℕ, suc, ◌+◌, ◌≡◌, refl, sym, ap, ◌∙◌, some, List, [], ◌∷◌, ◌++◌, set, length, update, ap₂, subst,
  ==_iff, arith,
}
use openfpm_vcluster.Nbx.State.{AllocArgs}
use openfpm_vcluster.Semantic.Reorder.{Buffer}
use openfpm_vcluster.Semantic.Reorder.Order.{Arrival, bufs_of, procs_of, tags_of, sizes_of}
use openfpm_vcluster.Semantic.Alloc.{
  BaseInfo, Memory, resize_bufs, fresh_buffer, make_room, msg_alloc,
}

pub bufs_of-append : (xs ys : List Arrival) → bufs_of (xs ++ ys) ≡ bufs_of xs ++ bufs_of ys
bufs_of-append [] ys = refl
bufs_of-append (x ∷ xs) ys = ap (λ t. x.buf ∷ t) (bufs_of-append xs ys)

procs_of-append : (xs ys : List Arrival) → procs_of (xs ++ ys) ≡ procs_of xs ++ procs_of ys
procs_of-append [] ys = refl
procs_of-append (x ∷ xs) ys = ap (λ t. x.proc ∷ t) (procs_of-append xs ys)

tags_of-append : (xs ys : List Arrival) → tags_of (xs ++ ys) ≡ tags_of xs ++ tags_of ys
tags_of-append [] ys = refl
tags_of-append (x ∷ xs) ys = ap (λ t. x.tag ∷ t) (tags_of-append xs ys)

sizes_of-append : (xs ys : List Arrival) → sizes_of (xs ++ ys) ≡ sizes_of xs ++ sizes_of ys
sizes_of-append [] ys = refl
sizes_of-append (x ∷ xs) ys = ap (λ t. x.sz ∷ t) (sizes_of-append xs ys)

set-resize_bufs :
    (rs : List Arrival) (b : Buffer)
    → set (resize_bufs (suc (length rs)) (bufs_of rs)) (length rs) b ≡ bufs_of rs ++ b ∷ []
unfolding resize_bufs
set-resize_bufs [] b = refl
set-resize_bufs (r ∷ rs) b = ap (λ t. r.buf ∷ t) (set-resize_bufs rs b)

-- Room for the next message is made behind those that are there.
pub make_room-next :
    (rs : List Arrival) (n : ℕ)
    → make_room (length rs) n (bufs_of rs) ≡ bufs_of rs ++ fresh_buffer n ∷ []
unfolding make_room
make_room-next rs n =
    let next : length rs + 1 ≡ suc (length rs) = omega arith in
    ap (λ k. set (resize_bufs k (bufs_of rs)) (length rs) (fresh_buffer n)) next
    ∙ set-resize_bufs rs (fresh_buffer n)

-- The vectors that `info` names hold the messages `rs`.
pub record Records (m : Memory) (b : ℕ) (info : BaseInfo) (rs : List Arrival) : Type 0 where
  pub target : info.recv_buf ≡ some b
  pub bufs : m.recv_buf b ≡ bufs_of rs
  pub procs : m.prc info.prc ≡ procs_of rs
  pub sizes : m.sz info.sz ≡ sizes_of rs
  pub tags : m.tags info.tags ≡ tags_of rs

-- A message as msg_alloc notes it.
unfoldable pub noted : AllocArgs → Arrival
noted a = record { proc = a.proc; tag = a.tag; buf = fresh_buffer a.msg_i; sz = a.msg_i }

pub update_same : {A : Type 0} → (f : ℕ → A) (k : ℕ) (v : A) → update f k v k ≡ v
update_same f k v = rw ((==_iff k k).1 refl)

unfoldable pub filled : Memory → ℕ → BaseInfo → AllocArgs → Memory
filled m b info a = record m {
  recv_buf = update m.recv_buf b (make_room a.ri a.msg_i (m.recv_buf b));
  prc = update m.prc info.prc (m.prc info.prc ++ a.proc ∷ []);
  sz = update m.sz info.sz (m.sz info.sz ++ a.msg_i ∷ []);
  tags = update m.tags info.tags (m.tags info.tags ++ a.tag ∷ []);
}

pub msg_alloc-filled :
    (m : Memory) (k b : ℕ) (a : AllocArgs)
    → (m.infos k).recv_buf ≡ some b
    → msg_alloc a k m ≡ (m.address b a.ri, filled m b (m.infos k) a)
unfolding msg_alloc filled
msg_alloc-filled m k b a e = rw (msg_alloc, e)

pub filled-Records :
    (m : Memory) (b : ℕ) (info : BaseInfo) (rs : List Arrival) (a : AllocArgs)
    → Records m b info rs
    → a.ri ≡ length rs
    → Records (filled m b info a) b info (rs ++ noted a ∷ [])
unfolding filled noted
filled-Records m b info rs a h place = record {
  target = h.target;
  bufs =
      update_same m.recv_buf b (make_room a.ri a.msg_i (m.recv_buf b))
      ∙ ap₂ (λ i t. make_room i a.msg_i t) place h.bufs
      ∙ make_room-next rs a.msg_i
      ∙ sym (bufs_of-append rs (noted a ∷ []));
  procs =
      update_same m.prc info.prc (m.prc info.prc ++ a.proc ∷ [])
      ∙ ap (λ t. t ++ a.proc ∷ []) h.procs
      ∙ sym (procs_of-append rs (noted a ∷ []));
  sizes =
      update_same m.sz info.sz (m.sz info.sz ++ a.msg_i ∷ [])
      ∙ ap (λ t. t ++ a.msg_i ∷ []) h.sizes
      ∙ sym (sizes_of-append rs (noted a ∷ []));
  tags =
      update_same m.tags info.tags (m.tags info.tags ++ a.tag ∷ [])
      ∙ ap (λ t. t ++ a.tag ∷ []) h.tags
      ∙ sym (tags_of-append rs (noted a ∷ []));
}

-- The call-back appends the message that it is told of to all four of its vectors, with a buffer of
-- the size of the message at the place that progressCommunication gives it, and returns the address
-- of that buffer, where that place is the first free one.
pub msg_alloc-Records :
    (m : Memory) (k b : ℕ) (rs : List Arrival) (a : AllocArgs)
    → Records m b (m.infos k) rs
    → a.ri ≡ length rs
    → Records (msg_alloc a k m).1 b (m.infos k) (rs ++ noted a ∷ [])
      × (msg_alloc a k m).0 ≡ m.address b (length rs)
msg_alloc-Records m k b rs a h place =
    subst (λ r. Records r.1 b (m.infos k) (rs ++ noted a ∷ []) × r.0 ≡ m.address b (length rs))
      (sym (msg_alloc-filled m k b a h.target))
      (filled-Records m b (m.infos k) rs a h place, ap (m.address b) place)
