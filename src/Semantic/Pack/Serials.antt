-- ===== src/Semantic/Pack/Serials.antt =====
-- The serialized objects that a process receives, from their packing to the end of the unpacking
-- (VCluster/VCluster.hpp and VCluster/VCluster_meta_function.hpp).
use openfpm_vcluster.Prelude.{
  ℕ, suc, ◌+◌, ◌-◌, ◌≤◌, ◌≡◌, refl, sym, ap, ap₂, ◌∙◌, not, ◌&&◌, List, [], ◌∷◌, ◌++◌, map, length,
  take, drop, subst, append_assoc, length-append, All, arith, ◌==◌, if◌then◌else◌, Bool-cases, inl,
  inr,
}
use openfpm_vcluster.Wire.{int_max}
use openfpm_vcluster.Semantic.Reorder.{Buffer}
use openfpm_vcluster.Semantic.Reorder.Order.{bufs_of}
use openfpm_vcluster.Semantic.Pack.{Serial}
use openfpm_vcluster.Semantic.Pack.Serializing.{all_packed, placed}
use openfpm_vcluster.Semantic.Pack.RoundTrip.{prepared}
use openfpm_vcluster.Semantic.Pack.Unpack.{Unpacking, account, serial_loop, process_serial_buffer}
use openfpm_vcluster.Semantic.Pack.InOrder.{bufs_of-append}
use openfpm_vcluster.Semantic.Pack.Network.{arrivals, Posting, posted_to, all_posted, Readable}

-- The bytes from an address on, in a memory that lies at `base`
abbrev pub reads : ℕ → Buffer → ℕ → ℕ → Buffer
reads base written a n = take n (drop (a - base) written)

drop-length {ℓ} : {A : Type ℓ} (xs ys : List A) → drop (length xs) (xs ++ ys) ≡ ys
drop-length [] ys = refl
drop-length (x ∷ xs) ys = drop-length xs ys

take-length {ℓ} : {A : Type ℓ} (xs ys : List A) → take (length xs) (xs ++ ys) ≡ xs
take-length [] ys = refl
take-length (x ∷ xs) ys = ap (λ zs. x ∷ zs) (take-length xs ys)

reads_placed :
    (base : ℕ) (front own behind : Buffer)
    → reads base (front ++ (own ++ behind)) (base + length front) (length own) ≡ own
reads_placed base front own behind =
    ap (λ k. take (length own) (drop k (front ++ (own ++ behind))))
      (let k : base + length front - base ≡ length front = omega arith in k)
    ∙ ap (take (length own)) (drop-length front (own ++ behind))
    ∙ take-length own behind

-- A process that sends objects, serialized in a memory of their own at `base`
pub record Serializer (X : Type 0) : Type 0 where
  pub rank : ℕ
  pub cnt : ℕ
  pub position : ℕ
  pub prc_send : List ℕ
  pub send : List X
  pub base : ℕ

module _ {X : Type 0} (pack : X → Serial) where
  abbrev pub serial_posting : Serializer X → Posting
  serial_posting s = record {
    rank = s.rank;
    cnt = s.cnt;
    position = s.position;
    outs = placed s.base s.prc_send (map pack s.send);
    read = reads s.base (all_packed (map pack s.send));
  }

  -- The objects for process `r` whose serialization is not empty
  abbrev pub objects_for : ℕ → List ℕ → List X → List X
  objects_for r (p ∷ ps) (x ∷ xs) =
      let rest = objects_for r ps xs in
      if not (length (pack x).packed == 0) && (p == r) then x ∷ rest else rest
  objects_for r _ _ = []

  abbrev pub all_objects_for : ℕ → List (Serializer X) → List X
  all_objects_for r [] = []
  all_objects_for r (s ∷ ss) = objects_for r s.prc_send s.send ++ all_objects_for r ss

  abbrev pub packed_bytes : List X → List Buffer
  packed_bytes [] = []
  packed_bytes (x ∷ xs) = (pack x).packed ∷ packed_bytes xs

  length-packed_bytes : (xs : List X) → length (packed_bytes xs) ≡ length xs
  length-packed_bytes [] = refl
  length-packed_bytes (x ∷ xs) = ap suc (length-packed_bytes xs)

  packed_bytes-append :
      (xs ys : List X) → packed_bytes (xs ++ ys) ≡ packed_bytes xs ++ packed_bytes ys
  packed_bytes-append [] ys = refl
  packed_bytes-append (x ∷ xs) ys = ap (λ z. (pack x).packed ∷ z) (packed_bytes-append xs ys)

  -- The messages that arrive hold the serializations of the objects for the process.
  arrivals-packed :
      (who r cnt q base i : ℕ) (front : Buffer) (ps : List ℕ) (xs : List X)
      → bufs_of (
          arrivals who r cnt q
            (reads base (front ++ all_packed (map pack xs)))
            i
            (placed (base + length front) ps (map pack xs)))
        ≡ packed_bytes (objects_for r ps xs)
  arrivals-packed who r cnt q base i front [] [] = refl
  arrivals-packed who r cnt q base i front [] (x ∷ xs) = refl
  arrivals-packed who r cnt q base i front (p ∷ ps) [] = refl
  arrivals-packed who r cnt q base i front (p ∷ ps) (x ∷ xs) =
      let own = (pack x).packed in
      let behind = all_packed (map pack xs) in
      let there = reads_placed base front own behind in
      let at : base + length front + length own ≡ base + length (front ++ own) =
        omega (arith, length-append front own) in
      let rest : bufs_of (
            arrivals who r cnt q (reads base (front ++ (own ++ behind))) (i + 1)
              (placed (base + length front + length own) ps (map pack xs)))
          ≡ packed_bytes (objects_for r ps xs) =
        ap₂
          (λ (w : Buffer) (a : ℕ).
            bufs_of (arrivals who r cnt q (reads base w) (i + 1) (placed a ps (map pack xs))))
          (sym (append_assoc front own behind)) at
        ∙ arrivals-packed who r cnt q base (i + 1) (front ++ own) ps xs in
      elim (Bool-cases (not (length own == 0) && (p == r))) [
        | inl e ↦ rw e (ap₂ (λ (b : Buffer) (bs : List Buffer). b ∷ bs) there rest)
        | inr e ↦ rw e rest
      ]

  -- The same of one process, and of all
  posted_to-packed :
      (r : ℕ) (s : Serializer X)
      → bufs_of (posted_to r (serial_posting s)) ≡ packed_bytes (objects_for r s.prc_send s.send)
  posted_to-packed r s =
      ap
        (λ a. bufs_of (
          arrivals s.rank r s.cnt s.position (reads s.base (all_packed (map pack s.send))) 0
            (placed a s.prc_send (map pack s.send))))
        (let e : s.base ≡ s.base + 0 = omega arith in e)
      ∙ arrivals-packed s.rank r s.cnt s.position s.base 0 [] s.prc_send s.send

  pub all_posted-packed :
      (r : ℕ) (ss : List (Serializer X))
      → bufs_of (all_posted r (map serial_posting ss)) ≡ packed_bytes (all_objects_for r ss)
  all_posted-packed r [] = refl
  all_posted-packed r (s ∷ ss) =
      bufs_of-append (posted_to r (serial_posting s)) (all_posted r (map serial_posting ss))
      ∙ ap₂ (λ (x y : List Buffer). x ++ y) (posted_to-packed r s) (all_posted-packed r ss)
      ∙ sym (packed_bytes-append (objects_for r s.prc_send s.send) (all_objects_for r ss))

  -- Each message is read whole from the memory.
  pub placed-Readable :
      (base : ℕ) (front : Buffer) (ps : List ℕ) (xs : List X)
      → All (λ x. length (pack x).packed ≤ int_max) xs
      → All
          (Readable (reads base (front ++ all_packed (map pack xs))))
          (placed (base + length front) ps (map pack xs))
  placed-Readable base front [] [] h = tt
  placed-Readable base front [] (x ∷ xs) h = tt
  placed-Readable base front (p ∷ ps) [] h = tt
  placed-Readable base front (p ∷ ps) (x ∷ xs) (k, h) =
      let own = (pack x).packed in
      let behind = all_packed (map pack xs) in
      let at : base + length (front ++ own) ≡ base + length front + length own =
        omega (arith, length-append front own) in
      (
        (k, ap length (reads_placed base front own behind)),
        subst
            (λ a.
              All (Readable (reads base (front ++ (own ++ behind)))) (placed a ps (map pack xs)))
            at
            (subst
              (λ w.
                All (Readable (reads base w))
                  (placed (base + length (front ++ own)) ps (map pack xs)))
              (append_assoc front own behind) (placed-Readable base (front ++ own) ps xs h)),
      )

  module _ {S : Type 0} (size : S → ℕ) (unpack : Buffer → X) (merge : ℕ → X → S → S) where
    -- The reference: each object is merged once, in order.
    unfoldable pub merge_objects : ℕ → List X → Unpacking S → Unpacking S
    merge_objects i [] u = u
    merge_objects i (x ∷ xs) u =
        merge_objects (i + 1) xs (account size i (length (pack x).packed) (merge i x u.recv) u)

    serial_loop-merge_objects :
        ((x : X) → unpack (pack x).packed ≡ x)
        → (i : ℕ) (xs : List X) (u : Unpacking S)
        → serial_loop size unpack merge i (packed_bytes xs) u ≡ merge_objects i xs u
    unfolding serial_loop merge_objects
    serial_loop-merge_objects h i [] u = refl
    serial_loop-merge_objects h i (x ∷ xs) u =
        ap
          (λ y.
            serial_loop size unpack merge (i + 1) (packed_bytes xs)
              (account size i (length (pack x).packed) (merge i y u.recv) u))
          (h x)
        ∙ serial_loop-merge_objects h (i + 1) xs _

    -- What is unpacked of the messages for a process are the objects that were packed for it.
    pub process_serial_buffer-merge_objects :
        ((x : X) → unpack (pack x).packed ≡ x)
        → (r : ℕ) (ss : List (Serializer X)) (u : Unpacking S)
        → process_serial_buffer size unpack merge (bufs_of (all_posted r (map serial_posting ss))) u
          ≡ merge_objects 0 (all_objects_for r ss) (prepared (length (all_objects_for r ss)) u)
    unfolding process_serial_buffer
    process_serial_buffer-merge_objects h r ss u =
        let xs = all_objects_for r ss in
        ap (λ bs. process_serial_buffer size unpack merge bs u) (all_posted-packed r ss)
        ∙ ap (λ n. serial_loop size unpack merge 0 (packed_bytes xs) (prepared n u))
            (length-packed_bytes xs)
        ∙ serial_loop-merge_objects h 0 xs _
