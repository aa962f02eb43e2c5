-- ===== src/Semantic/Merge/Pairing.antt =====
-- Which entries of `opart` each received vector is merged with (VCluster/VCluster_meta_function.hpp,
-- op_ssend_recv_merge and op_ssend_recv_merge_gpu).
use mathlib.Core.List.{nil≢cons, head-eq_of_cons-eq, tail-eq_of_cons-eq}
use native.Mathlib.Nat.{mul-div_cancel}
use openfpm_vcluster.Prelude.{
  ℕ, zero, suc, ◌+◌, ◌-◌, ◌*◌, ◌/◌, ◌%◌, ◌^◌, ◌≤◌, ◌<◌, ◌≡◌, refl, sym, ap, ◌∙◌, subst, false,
  Option, none, some, List, [], ◌∷◌, length, get_elem?, drop, All, arith, ◌==◌,
}
use openfpm_vcluster.Semantic.Pack.{linear, interleaved, Vector}
use openfpm_vcluster.Semantic.Pack.Sending.{IsVector}
use openfpm_vcluster.Semantic.Pack.RoundTrip.{
  buffers_of, view_of, first_bytes, merge_all, Positive, prepared, process_receive_buffer-merge_all,
}
use openfpm_vcluster.Semantic.Pack.Unpack.{Unpacking, account, process_receive_buffer}
use openfpm_vcluster.Semantic.Merge.{
  Receiver, recv_merge_impl, recv_merge, merge_start, recv_merge_gpu_impl, recv_merge_gpu,
}

get_elem?-past {ℓ} : {A : Type ℓ} (xs : List A) (i : ℕ) → length xs ≤ i → get_elem? xs i ≡ none
get_elem?-past [] i h = refl
get_elem?-past (x ∷ xs) zero h = absurd (omega (arith, h))
get_elem?-past (x ∷ xs) (suc i) h = get_elem?-past xs i (omega (arith, h))

-- The entry at a place, and those behind it
get_elem?-drop {ℓ} :
    {A : Type ℓ} (xs : List A) (i : ℕ) (y : A) (ys : List A)
    → drop i xs ≡ y ∷ ys
    → (get_elem? xs i ≡ some y) × (drop (suc i) xs ≡ ys)
get_elem?-drop [] zero y ys e = absurd (nil≢cons e)
get_elem?-drop [] (suc i) y ys e = absurd (nil≢cons e)
get_elem?-drop (x ∷ xs) zero y ys e = (ap some (head-eq_of_cons-eq e), tail-eq_of_cons-eq e)
get_elem?-drop (x ∷ xs) (suc i) y ys e = get_elem?-drop xs i y ys e

drop_past {ℓ} : {A : Type ℓ} (xs : List A) (i : ℕ) → drop i xs ≡ [] → get_elem? xs i ≡ none
drop_past [] i e = refl
drop_past (x ∷ xs) zero e = absurd (nil≢cons (sym e))
drop_past (x ∷ xs) (suc i) e = drop_past xs i e

mul_suc : (n k : ℕ) → n * suc k ≡ n + n * k
mul_suc n k = grind arith

suc_mul : (k n : ℕ) → k * n + n ≡ suc k * n
suc_mul k n = grind arith

product_pos : (k n : ℕ) → 0 < n → (suc k * n == 0) ≡ false
product_pos k n h = let l : 0 < k * n + n = omega arith in rw (← suc_mul k n) (ground arith)

zero_mul : (n : ℕ) → 0 * n ≡ 0
zero_mul n = omega arith

twice : (m k : ℕ) → suc (suc k) ≤ suc (suc m) * suc k
twice m k = grind arith

suc_next : (i : ℕ) → i + 1 ≡ suc i
suc_next i = omega arith

module _ {D P : Type 0} (lib : Receiver D P) where
  -- Each vector with an entry of its own, in order
  abbrev pub merge_each : List Vector → List P → D → Option D
  merge_each [] os d = some d
  merge_each (v ∷ vs) [] d = none
  merge_each (v ∷ vs) (o ∷ os) d = merge_each vs os (lib.merge_prp_v (view_of v) o d)

  -- Each vector with the entries from where those of the vector before it end, to its own end
  abbrev pub merge_ranges : ℕ → List P → List Vector → List ℕ → D → Option D
  merge_ranges start opart [] ends d = some d
  merge_ranges start opart (v ∷ vs) [] d = none
  merge_ranges start opart (v ∷ vs) (stop ∷ ends) d =
      merge_ranges stop opart vs ends (lib.merge_prp_v_device (view_of v) opart start stop d)

  -- What `unsigned int` holds of the entries
  abbrev pub in_32_bits : List ℕ → List ℕ
  in_32_bits [] = []
  in_32_bits (e ∷ es) = e % 2 ^ 32 ∷ in_32_bits es

  module _ (size : Option D → ℕ) where
    merge_all-none :
        (opart : List P) (n i : ℕ) (vs : List Vector) (u : Unpacking (Option D))
        → u.recv ≡ none
        → (merge_all size (recv_merge lib opart) n i vs u).recv ≡ none
    unfolding merge_all account recv_merge recv_merge_impl
    merge_all-none opart n i [] u e = e
    merge_all-none opart n i (v ∷ vs) u e = merge_all-none opart n (i + n) vs _ (rw e refl)

    merge_all-merge_each :
        (opart os : List P) (i : ℕ) (vs : List Vector) (u : Unpacking (Option D)) (d : D)
        → u.recv ≡ some d
        → drop i opart ≡ os
        → (merge_all size (recv_merge lib opart) 1 i vs u).recv ≡ merge_each vs os d
    unfolding merge_all account recv_merge recv_merge_impl
    merge_all-merge_each opart os i [] u d e h = e
    merge_all-merge_each opart [] i (v ∷ vs) u d e h =
        merge_all-none opart 1 (i + 1) vs _ (rw (e, drop_past opart i h) refl)
    merge_all-merge_each opart (o ∷ os) i (v ∷ vs) u d e h =
        let (k, l) = get_elem?-drop opart i o os h in
        merge_all-merge_each opart os (i + 1) vs _ (lib.merge_prp_v (view_of v) o d)
          (rw (e, k) refl) (ap (λ j. drop j opart) (suc_next i) ∙ l)

    entry_past :
        (opart : List P) (i : ℕ) (v : Vector) (r : Option D)
        → length opart ≤ i
        → recv_merge lib opart i (view_of v) r ≡ none
    unfolding recv_merge recv_merge_impl
    entry_past opart i v none h = refl
    entry_past opart i v (some d) h = rw (get_elem?-past opart i h) refl

    -- The last of several vectors whose buffers are `n` apart has its entry past the end.
    merge_all-past :
        (opart : List P) (n i : ℕ) (v : Vector) (vs : List Vector) (u : Unpacking (Option D))
        → length opart ≤ i + n * length vs
        → (merge_all size (recv_merge lib opart) n i (v ∷ vs) u).recv ≡ none
    unfolding merge_all account recv_merge recv_merge_impl
    merge_all-past opart n i v [] u h = entry_past opart i v u.recv (omega (arith, h))
    merge_all-past opart n i v (w ∷ vs) u h =
        merge_all-past opart n (i + n) w vs _ (omega (arith, h, mul_suc n (length vs)))

    start_next :
        (prc_off : List ℕ) (n k stop : ℕ)
        → 0 < n
        → suc k < 2 ^ 64
        → get_elem? prc_off k ≡ some stop
        → merge_start lib n prc_off (suc k * n) ≡ some (stop % 2 ^ 32)
    unfolding merge_start
    start_next prc_off n k stop n0 b e =
        let later : (suc k * n == 0) ≡ false = product_pos k n n0 in
        let div : suc k * n / n ≡ suc k = mul-div_cancel (suc k) n0 in
        let before : (suc k + 2 ^ 64 - 1) % 2 ^ 64 ≡ k = omega (arith, b) in
        rw later (rw div (rw before (rw e refl)))

    -- The range of vector `k` starts where the one before it ends.
    merge_all-merge_ranges :
        (opart : List P) (prc_off ends : List ℕ) (n k start : ℕ) (vs : List Vector)
        (u : Unpacking (Option D)) (d : D)
        → 0 < n
        → k + length vs < 2 ^ 64
        → u.recv ≡ some d
        → drop k prc_off ≡ ends
        → length vs ≤ length ends
        → merge_start lib n prc_off (k * n) ≡ some start
        → (merge_all size (recv_merge_gpu lib false n opart prc_off) n (k * n) vs u).recv
          ≡ merge_ranges start opart vs (in_32_bits ends) d
    unfolding merge_all account recv_merge_gpu recv_merge_gpu_impl
    merge_all-merge_ranges opart prc_off ends n k start [] u d n0 b e h l m = e
    merge_all-merge_ranges opart prc_off [] n k start (v ∷ vs) u d n0 b e h l m =
        absurd (omega (arith, l))
    merge_all-merge_ranges opart prc_off (stop ∷ ends) n k start (v ∷ vs) u d n0 b e h l m =
        let (here, later) = get_elem?-drop prc_off k stop ends h in
        let div : k * n / n ≡ k = mul-div_cancel k n0 in
        ap
          (λ i.
            (merge_all size (recv_merge_gpu lib false n opart prc_off) n i vs (
              account size (k * n) (first_bytes v.columns)
                (recv_merge_gpu lib false n opart prc_off (k * n) (view_of v) u.recv) u)).recv)
          (suc_mul k n)
        ∙ merge_all-merge_ranges opart prc_off ends n (suc k) (stop % 2 ^ 32) vs _
            (lib.merge_prp_v_device (view_of v) opart start (stop % 2 ^ 32) d) n0 (omega (arith, b))
            (rw (e, m, div, here) refl) later (omega (arith, l))
            (start_next prc_off n k stop n0 (omega (arith, b)) here)

    -- From the buffers of the messages for vectors in one piece of memory, the merge with `opart`
    -- merges each vector with an entry of its own: the first with the first, and so on; fewer entries
    -- than vectors are read past their end.
    pub recv_merge-pairs :
        (opart : List P) (w : ℕ) (vs : List Vector) (u : Unpacking (Option D)) (d : D)
        → 0 < w
        → All (IsVector (linear w)) vs
        → u.recv ≡ some d
        → (t : Unpacking (Option D)) × (process_receive_buffer size
              (recv_merge lib opart)
              (linear w)
              1
              (buffers_of vs)
              u
            ≡ some t)
          × (t.recv ≡ merge_each vs opart d)
    recv_merge-pairs opart w vs u d p h e = (
      _,
      process_receive_buffer-merge_all size (recv_merge lib opart) (linear w) vs u (omega arith)
          (p, tt) h,
      merge_all-merge_each opart opart 0 vs (prepared (length (buffers_of vs)) u) d e refl,
    )

    -- From the buffers of the messages for vectors with two properties or more, each in a piece of
    -- memory of its own, the same merge goes past the end of an `opart` that has one entry for each
    -- vector, where there are two vectors or more: the entry that it takes is not that of the vector,
    -- but of the vector's first buffer.
    pub recv_merge-past_end :
        (opart : List P) (w w' : ℕ) (ws : List ℕ) (v v' : Vector) (vs : List Vector)
        (u : Unpacking (Option D))
        → Positive (w ∷ w' ∷ ws)
        → All (IsVector (interleaved (w ∷ w' ∷ ws))) (v ∷ v' ∷ vs)
        → length opart ≡ length (v ∷ v' ∷ vs)
        → (t : Unpacking (Option D)) × (process_receive_buffer size
              (recv_merge lib opart)
              (interleaved (w ∷ w' ∷ ws))
              (length (w ∷ w' ∷ ws))
              (buffers_of (v ∷ v' ∷ vs))
              u
            ≡ some t)
          × (t.recv ≡ none)
    recv_merge-past_end opart w w' ws v v' vs u p h e = (
      _,
      process_receive_buffer-merge_all size (recv_merge lib opart) (interleaved (w ∷ w' ∷ ws))
          (v ∷ v' ∷ vs) u (omega arith) p h,
      merge_all-past opart (length (w ∷ w' ∷ ws)) 0 v (v' ∷ vs) _
          (omega (arith, e, twice (length ws) (length vs))),
    )

    -- From the buffers of the messages for vectors of properties in pieces of memory of their own,
    -- the merge on the GPU merges each vector with the entries of `opart` from where those of the
    -- vector before it end to its own entry of `prc_off`, where of each entry only the lowest 32 bits
    -- count; the ranges of the vectors follow one another from 0 on. There are at least as many
    -- entries of `prc_off` as vectors, and fewer than 2 ^ 64 vectors.
    pub recv_merge_gpu-ranges :
        (opart : List P) (prc_off ws : List ℕ) (vs : List Vector) (u : Unpacking (Option D)) (d : D)
        → 0 < length ws
        → Positive ws
        → All (IsVector (interleaved ws)) vs
        → length vs ≤ length prc_off
        → length vs < 2 ^ 64
        → u.recv ≡ some d
        → (t : Unpacking (Option D)) × (process_receive_buffer size
              (recv_merge_gpu lib false (length ws) opart prc_off)
              (interleaved ws)
              (length ws)
              (buffers_of vs)
              u
            ≡ some t)
          × (t.recv ≡ merge_ranges 0 opart vs (in_32_bits prc_off) d)
    unfolding merge_start
    recv_merge_gpu-ranges opart prc_off ws vs u d n p h l b e = (
      _,
      process_receive_buffer-merge_all size (recv_merge_gpu lib false (length ws) opart prc_off)
          (interleaved ws) vs u n p h,
      subst
          (λ i.
            (merge_all size (recv_merge_gpu lib false (length ws) opart prc_off) (length ws) i vs
              (prepared (length (buffers_of vs)) u)).recv
            ≡ merge_ranges 0 opart vs (in_32_bits prc_off) d)
          (zero_mul (length ws))
          (merge_all-merge_ranges opart prc_off prc_off (length ws) 0 0 vs
            (prepared (length (buffers_of vs)) u) d n (omega arith) e refl l
            (ap (merge_start lib (length ws) prc_off) (zero_mul (length ws)))),
    )
