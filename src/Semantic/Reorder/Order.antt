-- ===== src/Semantic/Reorder/Order.antt =====
-- What reorder_buffer is for: the buffers come out in the order of their senders and tags, whatever
-- the order in which they arrived.
use mathlib.Core.List.{Mem, Memᴰ, Pairwise, Perm}
use mathlib.Core.List.Perm
use mathlib.Core.List.Pairwise
use mathlib.Core.Logic.{∥∥₁_elim}
use openfpm_vcluster.Prelude.{
  ℕ, zero, suc, ◌+◌, ◌<◌, ◌≡◌, refl, sym, ap, ap₂, subst, false, some, List, [], ◌∷◌, ◌++◌, map,
  get_elem?, length, arith, append_assoc, length-append,
}
use native.Mathlib.Nat.{ℕ_set}
use native.Mathlib.Bridge.{le_prop}
use openfpm_vcluster.Semantic.Reorder.{
  Buffer, Entry, before, less, entries, pick, procs, Reordered, reorder_buffer,
}

-- The documented behaviour of the sort: it permutes, and leaves no entry before a smaller one.
pub record IsSort (sort : List Entry → List Entry) : Type 0 where
  pub permutes : (es : List Entry) → Perm (sort es) es
  pub sorts : (es : List Entry) → Pairwise (λ a b. less b a ≡ false) (sort es)

-- A received message, as it stands in the vectors prc, tags, recv_buf and sz_recv.
pub record Arrival : Type 0 where
  pub proc : ℕ
  pub tag : ℕ
  pub buf : Buffer
  pub sz : ℕ

abbrev pub bufs_of : List Arrival → List Buffer
bufs_of [] = []
bufs_of (a ∷ rs) = a.buf ∷ bufs_of rs

abbrev pub procs_of : List Arrival → List ℕ
procs_of [] = []
procs_of (a ∷ rs) = a.proc ∷ procs_of rs

abbrev pub tags_of : List Arrival → List ℕ
tags_of [] = []
tags_of (a ∷ rs) = a.tag ∷ tags_of rs

abbrev pub sizes_of : List Arrival → List ℕ
sizes_of [] = []
sizes_of (a ∷ rs) = a.sz ∷ sizes_of rs

abbrev pub reordered : List Arrival → Reordered
reordered rs = record { recv_buf = bufs_of rs; prc = procs_of rs; sz_recv = sizes_of rs }

-- `a` does not have to come after `b`.
abbrev pub NotAfter : Arrival → Arrival → Type 0
NotAfter a b = before b.proc b.tag a.proc a.tag ≡ false

index : ℕ → List Arrival → List Entry
index i [] = []
index i (a ∷ rs) = record { proc = a.proc; tag = a.tag; pos = i } ∷ index (i + 1) rs

entries-index :
    (i : ℕ) (rs : List Arrival)
    → entries i (bufs_of rs) (procs_of rs) (tags_of rs) ≡ some (index i rs)
unfolding entries index
entries-index i [] = refl
entries-index i (a ∷ rs) = rw (entries-index (i + 1) rs)

-- The arrival at a position, where there is one
at : Arrival → List Arrival → ℕ → Arrival
at d [] i = d
at d (a ∷ rs) zero = a
at d (a ∷ rs) (suc i) = at d rs i

at-buf :
    (d : Arrival) (rs : List Arrival) (i : ℕ)
    → i < length rs
    → get_elem? (bufs_of rs) i ≡ some (at d rs i).buf
unfolding at
at-buf d [] i h = absurd (omega arith)
at-buf d (a ∷ rs) zero h = refl
at-buf d (a ∷ rs) (suc i) h = at-buf d rs i (omega arith)

at-sz :
    (d : Arrival) (rs : List Arrival) (i : ℕ)
    → i < length rs
    → get_elem? (sizes_of rs) i ≡ some (at d rs i).sz
unfolding at
at-sz d [] i h = absurd (omega arith)
at-sz d (a ∷ rs) zero h = refl
at-sz d (a ∷ rs) (suc i) h = at-sz d rs i (omega arith)

at-middle : (d a : Arrival) (xs ys : List Arrival) → at d (xs ++ a ∷ ys) (length xs) ≡ a
unfolding at
at-middle d a [] ys = refl
at-middle d a (x ∷ xs) ys = at-middle d a xs ys

-- An entry points at an arrival with its key.
Points : Arrival → List Arrival → Entry → Type 0
Points d rs e =
    (e.pos < length rs) × ((at d rs e.pos).proc ≡ e.proc) × ((at d rs e.pos).tag ≡ e.tag)

Points-prop : (d : Arrival) (rs : List Arrival) (e : Entry) → IsProp (Points d rs e)
unfolding Points
Points-prop d rs e = hlevel (le_prop, ℕ_set)

shift :
    (pre : List Arrival) (a : Arrival) (rs : List Arrival) → (pre ++ a ∷ []) ++ rs ≡ pre ++ a ∷ rs
shift pre a rs = append_assoc pre (a ∷ []) rs

index-Points :
    (d : Arrival) (pre rs : List Arrival) (i : ℕ) (e : Entry)
    → i ≡ length pre
    → Memᴰ e (index i rs)
    → Points d (pre ++ rs) e
unfolding index Points
index-Points d pre [] i e h m = elim m [ ]
index-Points d pre (a ∷ rs) i e h (Memᴰ.head q) =
    rw (q, h)
      (
        omega (arith, length-append pre (a ∷ rs)),
        ap (λ (x : Arrival). x.proc) (at-middle d a pre rs),
        ap (λ (x : Arrival). x.tag) (at-middle d a pre rs),
      )
index-Points d pre (a ∷ rs) i e h (Memᴰ.tail m) =
    subst (λ l. Points d l e) (shift pre a rs)
      (index-Points d (pre ++ a ∷ []) rs (i + 1) e (omega (arith, length-append pre (a ∷ []))) m)

abbrev arrival_at : Arrival → List Arrival → Entry → Arrival
arrival_at d rs e = at d rs e.pos

index-map :
    (d : Arrival) (pre rs : List Arrival) (i : ℕ)
    → i ≡ length pre
    → map (arrival_at d (pre ++ rs)) (index i rs) ≡ rs
unfolding index
index-map d pre [] i h = refl
index-map d pre (a ∷ rs) i h =
    ap₂ (λ (x : Arrival) (xs : List Arrival). x ∷ xs) (rw h (at-middle d a pre rs))
      (subst (λ l. map (arrival_at d l) (index (i + 1) rs) ≡ rs) (shift pre a rs)
        (index-map d (pre ++ a ∷ []) rs (i + 1) (omega (arith, length-append pre (a ∷ [])))))

-- The picks succeed where all entries point at arrivals, and give the arrivals' parts.
pick-bufs :
    (d : Arrival) (rs : List Arrival) (es : List Entry)
    → ((e : Entry) → Memᴰ e es → Points d rs e)
    → pick (bufs_of rs) es ≡ some (bufs_of (map (arrival_at d rs) es))
unfolding pick Points
pick-bufs d rs [] h = refl
pick-bufs d rs (e ∷ es) h =
    rw (at-buf d rs e.pos (h e (Memᴰ.head refl)).0, pick-bufs d rs es (λ x m. h x (Memᴰ.tail m)))

pick-sizes :
    (d : Arrival) (rs : List Arrival) (es : List Entry)
    → ((e : Entry) → Memᴰ e es → Points d rs e)
    → pick (sizes_of rs) es ≡ some (sizes_of (map (arrival_at d rs) es))
unfolding pick Points
pick-sizes d rs [] h = refl
pick-sizes d rs (e ∷ es) h =
    rw (at-sz d rs e.pos (h e (Memᴰ.head refl)).0, pick-sizes d rs es (λ x m. h x (Memᴰ.tail m)))

procs-map :
    (d : Arrival) (rs : List Arrival) (es : List Entry)
    → ((e : Entry) → Memᴰ e es → Points d rs e)
    → procs es ≡ procs_of (map (arrival_at d rs) es)
unfolding Points
procs-map d rs [] h = refl
procs-map d rs (e ∷ es) h =
    ap₂ (λ (x : ℕ) (xs : List ℕ). x ∷ xs) (sym (h e (Memᴰ.head refl)).1)
      (procs-map d rs es (λ x m. h x (Memᴰ.tail m)))

module _ (sort : List Entry → List Entry) (good : IsSort sort) where
  -- The arrivals in the order of the sorted entries
  arranged : Arrival → List Arrival → List Arrival
  arranged d rs = map (arrival_at d rs) (sort (index 0 rs))

  sorted-Points :
      (d : Arrival) (rs : List Arrival) (e : Entry) → Mem e (sort (index 0 rs)) → Points d rs e
  sorted-Points d rs e m =
      ∥∥₁_elim ((Perm.mem_iff (good.permutes (index 0 rs))).0 m) (Points-prop d rs e)
        (index-Points d [] rs 0 e refl)

  arranged-perm : (d : Arrival) (rs : List Arrival) → Perm (arranged d rs) rs
  unfolding arranged
  arranged-perm d rs =
      subst (Perm (map (arrival_at d rs) (sort (index 0 rs)))) (index-map d [] rs 0 refl)
        (Perm.map (arrival_at d rs) (good.permutes (index 0 rs)))

  arranged-ordered : (d : Arrival) (rs : List Arrival) → Pairwise NotAfter (arranged d rs)
  unfolding arranged Points
  arranged-ordered d rs =
      Pairwise.map (λ a b. hlevel) (arrival_at d rs) (λ a b h. h)
        (Pairwise.imp_of_mem
          (λ a b ma mb r.
            let pa = sorted-Points d rs a ma in
            let pb = sorted-Points d rs b mb in rw (pb.1, pb.2, pa.1, pa.2) r)
          (good.sorts (index 0 rs)))

  reorder-arranged :
      (d : Arrival) (rs : List Arrival)
      → reorder_buffer sort (bufs_of rs) (procs_of rs) (tags_of rs) (sizes_of rs)
        ≡ some (reordered (arranged d rs))
  unfolding reorder_buffer arranged
  reorder-arranged d rs =
      let pts : (e : Entry) → Memᴰ e (sort (index 0 rs)) → Points d rs e =
        λ e m. sorted-Points d rs e ∣ m ∣₁ in
      rw (entries-index 0 rs, pick-bufs d rs _ pts, pick-sizes d rs _ pts, procs-map d rs _ pts)

  abbrev none_yet : Arrival
  none_yet = record { proc = 0; tag = 0; buf = []; sz = 0 }

  -- For any received messages, as the call-backs record them in the four vectors: reorder_buffer
  -- leaves the same messages in a new order, the same one in all of its three vectors, and no
  -- message stands before one of a smaller sender, or of the same sender with a smaller tag.
  pub reorder_buffer-orders :
      (rs : List Arrival)
      → (bs : List Arrival) × (reorder_buffer sort
            (bufs_of rs)
            (procs_of rs)
            (tags_of rs)
            (sizes_of rs)
          ≡ some (reordered bs))
        × Perm bs rs
        × Pairwise NotAfter bs
  reorder_buffer-orders rs = (
    arranged none_yet rs,
    reorder-arranged none_yet rs,
    arranged-perm none_yet rs,
    arranged-ordered none_yet rs,
  )
