-- ===== src/Semantic/Merge/Filling.antt =====
-- Where the merge of the ghost elements puts what is received (VCluster/VCluster_meta_function.hpp,
-- op_ssend_gg_recv_merge and op_ssend_gg_recv_merge_run_device).
use openfpm_vcluster.Prelude.{
  ℕ, zero, suc, ◌+◌, ◌^◌, ◌≤◌, ◌<◌, ◌≡◌, refl, sym, ap, ◌∙◌, Bool, true, false, some, List, [], ◌∷◌,
  ◌++◌, length, All, arith,
}
use openfpm_vcluster.Semantic.Pack.{Layout, Vector, widths}
use openfpm_vcluster.Semantic.Pack.Sending.{IsVector}
use openfpm_vcluster.Semantic.Pack.RoundTrip.{
  buffers_of, view_of, first_bytes, merge_all, Positive, prepared, process_receive_buffer-merge_all,
}
use openfpm_vcluster.Semantic.Pack.Unpack.{Unpacking, View, account, process_receive_buffer}
use openfpm_vcluster.Semantic.Merge.{
  Receiver, last_of, gg_merge_impl, run_device_impl, run_device_direct, gg_recv_merge,
  gg_recv_merge_run_device,
}

-- The elements `cs` instead of those from element `s` on, as far as there are elements
abbrev pub place {ℓ} : {E : Type ℓ} → ℕ → List E → List E → List E
place s cs [] = []
place (suc s) cs (x ∷ xs) = x ∷ place s cs xs
place zero [] (x ∷ xs) = x ∷ xs
place zero (c ∷ cs) (x ∷ xs) = c ∷ place zero cs xs

length-place {ℓ} : {E : Type ℓ} (s : ℕ) (cs xs : List E) → length (place s cs xs) ≡ length xs
length-place s cs [] = refl
length-place (suc s) cs (x ∷ xs) = ap suc (length-place s cs xs)
length-place zero [] (x ∷ xs) = refl
length-place zero (c ∷ cs) (x ∷ xs) = ap suc (length-place zero cs xs)

place-nil {ℓ} : {E : Type ℓ} (s : ℕ) (xs : List E) → place s [] xs ≡ xs
place-nil s [] = refl
place-nil (suc s) (x ∷ xs) = ap (λ t. x ∷ t) (place-nil s xs)
place-nil zero (x ∷ xs) = refl

-- One piece behind the other
place-append {ℓ} :
    {E : Type ℓ} (n s : ℕ) (cs ds xs : List E)
    → n ≡ s + length cs
    → place n ds (place s cs xs) ≡ place s (cs ++ ds) xs
place-append n s cs ds [] e = refl
place-append (suc n) (suc s) cs ds (x ∷ xs) e =
    ap (λ t. x ∷ t) (place-append n s cs ds xs (omega (arith, e)))
place-append n zero [] ds (x ∷ xs) e =
    let z : n ≡ 0 = omega (arith, e) in ap (λ k. place k ds (x ∷ xs)) z
place-append (suc n) zero (c ∷ cs) ds (x ∷ xs) e =
    ap (λ t. c ∷ t) (place-append n zero cs ds xs (omega (arith, e)))
place-append zero (suc s) cs ds (x ∷ xs) e = absurd (omega (arith, e))
place-append zero zero (c ∷ cs) ds (x ∷ xs) e = absurd (omega (arith, e))

-- The documented behaviour of the merges with replace_: the elements of the vector take the place of
-- those from element `start` on, where there are as many; and hostToDevice changes no element.
pub record IsReceiver {D P : Type 0} (lib : Receiver D P) {E : Type 0} (elems : D → List E)
    (cells : View → List E) : Type 0 where
  pub count : (v : View) → length (cells v) ≡ v.size
  pub replaces :
      (v : View) (start : ℕ) (d : D)
      → start + v.size ≤ length (elems d)
      → elems (lib.replace_prp_v v start d) ≡ place start (cells v) (elems d)
  pub replaces_device :
      (v : View) (start : ℕ) (d : D)
      → start + v.size ≤ length (elems d)
      → elems (lib.replace_prp_device v start d) ≡ place start (cells v) (elems d)
  pub copies : (first last : ℕ) (d : D) → elems (lib.host_to_device first last d) ≡ elems d

abbrev pub total : List Vector → ℕ
total [] = 0
total (v ∷ vs) = v.size + total vs

module _ {D P : Type 0} (lib : Receiver D P) {E : Type 0} (elems : D → List E)
    (cells : View → List E) (good : IsReceiver lib elems cells) where
  -- The elements of vectors, one vector behind the other
  abbrev pub all_cells : List Vector → List E
  all_cells [] = []
  all_cells (v ∷ vs) = cells (view_of v) ++ all_cells vs

  abbrev pub size_of : D × ℕ → ℕ
  size_of r = lib.size r.0

  -- An operation that puts a vector where it starts, and the next behind it
  Fills : (ℕ → View → D × ℕ → D × ℕ) → Type 0
  Fills op =
      (i : ℕ) (v : View) (d : D) (s : ℕ)
      → s + v.size ≤ length (elems d)
      → length (elems d) < 2 ^ 64
      → (elems (op i v (d, s)).0 ≡ place s (cells v) (elems d)) × ((op i v (d, s)).1 ≡ s + v.size)

  gg_recv_merge-Fills : Fills (gg_recv_merge lib)
  unfolding Fills gg_recv_merge gg_merge_impl
  gg_recv_merge-Fills i v d s h b = (good.replaces v s d h, omega (arith, h, b))

  run_device-Fills : (b : Bool) → Fills (gg_recv_merge_run_device lib b)
  unfolding Fills gg_recv_merge_run_device run_device_impl run_device_direct
  run_device-Fills true i v d s h b = (good.replaces_device v s d h, omega (arith, h, b))
  run_device-Fills false i v d s h b = (
    good.copies s (last_of s v.size) (lib.replace_prp_v v s d) ∙ good.replaces v s d h,
    omega (arith, h, b),
  )

  merge_all-Fills :
      (op : ℕ → View → D × ℕ → D × ℕ) (n i : ℕ) (vs : List Vector) (u : Unpacking (D × ℕ))
      → Fills op
      → u.recv.1 + total vs ≤ length (elems u.recv.0)
      → length (elems u.recv.0) < 2 ^ 64
      → let r = (merge_all size_of op n i vs u).recv in
        (elems r.0 ≡ place u.recv.1 (all_cells vs) (elems u.recv.0)) × (r.1 ≡ u.recv.1 + total vs)
  unfolding Fills merge_all account
  merge_all-Fills op n i [] u f h b = (sym (place-nil u.recv.1 (elems u.recv.0)), omega arith)
  merge_all-Fills op n i (v ∷ vs) u f h b =
      let r = op i (view_of v) u.recv in
      let (e, k) = f i (view_of v) u.recv.0 u.recv.1 (omega (arith, h)) b in
      let same = ap length e ∙ length-place u.recv.1 (cells (view_of v)) (elems u.recv.0) in
      let (e', k') =
        merge_all-Fills op n (i + n) vs (account size_of i (first_bytes v.columns) r u) f
          (omega (arith, h, k, same)) (omega (arith, b, same)) in
      (
        e'
            ∙ ap (place r.1 (all_cells vs)) e
            ∙ place-append r.1 u.recv.1 (cells (view_of v)) (all_cells vs) (elems u.recv.0)
                (k ∙ ap (λ c. u.recv.1 + c) (sym (good.count (view_of v)))),
        omega (arith, k', k),
      )

  -- What an operation does with the buffers of the messages for the vectors
  abbrev pub FillsAll :
      Layout → List Vector → Unpacking (D × ℕ) → (ℕ → View → D × ℕ → D × ℕ) → Type 0
  FillsAll l vs u op =
      (t : Unpacking (D × ℕ)) × (process_receive_buffer size_of op l (length (widths l))
          (buffers_of vs) u
        ≡ some t)
      × (elems t.recv.0 ≡ place u.recv.1 (all_cells vs) (elems u.recv.0))
      × (t.recv.1 ≡ u.recv.1 + total vs)

  Fills-FillsAll :
      (op : ℕ → View → D × ℕ → D × ℕ) (l : Layout) (vs : List Vector) (u : Unpacking (D × ℕ))
      → Fills op
      → 0 < length (widths l)
      → Positive (widths l)
      → All (IsVector l) vs
      → u.recv.1 + total vs ≤ length (elems u.recv.0)
      → length (elems u.recv.0) < 2 ^ 64
      → FillsAll l vs u op
  Fills-FillsAll op l vs u f n p h b c =
      let (e, k) =
        merge_all-Fills op (length (widths l)) 0 vs (prepared (length (buffers_of vs)) u) f b c in
      (_, process_receive_buffer-merge_all size_of op l vs u n p h, e, k)

  -- Vectors of one layout, for which the receiving object, of fewer than 2 ^ 64 elements, has enough
  -- elements from the operation's `start` on: from the buffers of their messages process_receive_buffer_with_prp, with the merge
  -- of the ghost elements, in host memory or over the device, puts their elements there in place of
  -- those that were there, one vector behind the other with none left out, changes no other element,
  -- and leaves `start` behind the last.
  pub gg_recv_merge-fills :
      (l : Layout) (vs : List Vector) (u : Unpacking (D × ℕ)) (cuda_active : Bool)
      → 0 < length (widths l)
      → Positive (widths l)
      → All (IsVector l) vs
      → u.recv.1 + total vs ≤ length (elems u.recv.0)
      → length (elems u.recv.0) < 2 ^ 64
      → FillsAll l vs u (gg_recv_merge lib)
        × FillsAll l vs u (gg_recv_merge_run_device lib cuda_active)
  gg_recv_merge-fills l vs u b n p h k c = (
    Fills-FillsAll (gg_recv_merge lib) l vs u gg_recv_merge-Fills n p h k c,
    Fills-FillsAll (gg_recv_merge_run_device lib b) l vs u (run_device-Fills b) n p h k c,
  )
