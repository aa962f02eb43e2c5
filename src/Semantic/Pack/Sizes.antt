-- ===== src/Semantic/Pack/Sizes.antt =====
-- What the vectors sz and sz_byte tell after unpacking (VCluster/VCluster_meta_function.hpp).
use openfpm_vcluster.Prelude.{
  ℕ, zero, suc, ◌+◌, ◌-◌, ◌%◌, ◌^◌, ◌<◌, ◌≡◌, refl, ap, ap₂, ◌∙◌, Option, some, List, [], ◌∷◌, ◌++◌,
  length, set, sum, append_assoc, length-append, All, arith,
}
use openfpm_vcluster.Nbx.Post.{resize}
use openfpm_vcluster.Semantic.Pack.{Column, Vector, linear}
use openfpm_vcluster.Semantic.Pack.Sending.{Fits, IsVector}
use openfpm_vcluster.Semantic.Pack.Unpack.{
  Unpacking, View, account, set_some, process_receive_buffer,
}
use openfpm_vcluster.Semantic.Pack.RoundTrip.{
  bytes_of, buffers_of, view_of, first_bytes, merge_all, process_receive_buffer-merge_all,
}

abbrev pub sizes : List Vector → List ℕ
sizes [] = []
sizes (v ∷ vs) = v.size ∷ sizes vs

abbrev pub byte_sizes : List Vector → List ℕ
byte_sizes [] = []
byte_sizes (v ∷ vs) = first_bytes v.columns ∷ byte_sizes vs

-- The number fits a size_t.
abbrev pub Fits64 : Vector → Type 0
Fits64 v = v.size < 2 ^ 64

length-resize : (n : ℕ) (xs : List ℕ) → length (resize n xs) ≡ n
unfolding resize
length-resize zero xs = refl
length-resize (suc n) [] = ap suc (length-resize n [])
length-resize (suc n) (x ∷ xs) = ap suc (length-resize n xs)

length-linear :
    (w : ℕ) (vs : List Vector) → All (IsVector (linear w)) vs → length (buffers_of vs) ≡ length vs
length-linear w [] h = refl
length-linear w (v ∷ vs) (f, h) =
    length-append (bytes_of v.columns) (buffers_of vs)
    ∙ omega (arith, length-linear w vs h, one v.columns f)
  where
    one : (cs : List Column) → Fits (w ∷ []) v.size cs → length (bytes_of cs) ≡ 1
    one [] f = absurd f
    one (c ∷ []) f = refl
    one (c ∷ d ∷ cs) (e, f) = absurd f

set-middle :
    (pre : List ℕ) (x y : ℕ) (old : List ℕ)
    → set (pre ++ x ∷ old) (length pre) y ≡ (pre ++ y ∷ []) ++ old
set-middle [] x y old = refl
set-middle (p ∷ pre) x y old = ap (λ (t : List ℕ). p ∷ t) (set-middle pre x y old)

growth : (a n : ℕ) → n < 2 ^ 64 → (a + n + 2 ^ 64 - a) % 2 ^ 64 ≡ n
growth a n h = omega arith

module _ {S : Type 0} (size : S → ℕ) (merge : ℕ → View → S → S)
    (adds : (i : ℕ) (v : View) (s : S) → size (merge i v s) ≡ size s + v.size) where
  written :
      (o : Option (List ℕ)) (i y z x : ℕ) (pre old : List ℕ)
      → i ≡ length pre
      → y ≡ z
      → o ≡ some (pre ++ x ∷ old)
      → set_some o i y ≡ some ((pre ++ z ∷ []) ++ old)
  written o i y z x pre old c g e =
      ap (λ o. set_some o i y) e
      ∙ ap₂ (λ (j k : ℕ). some (set (pre ++ x ∷ old) j k)) c g
      ∙ ap some (set-middle pre x z old)

  sized :
      (i : ℕ) (vs : List Vector) (pre old pre' old' : List ℕ) (u : Unpacking S)
      → All Fits64 vs
      → length old ≡ length vs
      → length old' ≡ length vs
      → i ≡ length pre
      → i ≡ length pre'
      → u.sz ≡ some (pre ++ old)
      → u.sz_byte ≡ some (pre' ++ old')
      → let t = merge_all size merge 1 i vs u in
        (t.sz ≡ some (pre ++ sizes vs))
        × (t.sz_byte ≡ some (pre' ++ byte_sizes vs))
        × (size t.recv ≡ size u.recv + sum (sizes vs))
  unfolding merge_all account
  sized i [] pre [] pre' [] u f l l' c c' e b = (e, b, omega arith)
  sized i (v ∷ vs) pre (x ∷ old) pre' (x' ∷ old') u (f, fs) l l' c c' e b =
      let n = adds i (view_of v) u.recv in
      let g : (size (merge i (view_of v) u.recv) + 2 ^ 64 - size u.recv) % 2 ^ 64 ≡ v.size =
        ap (λ (a : ℕ). (a + 2 ^ 64 - size u.recv) % 2 ^ 64) n ∙ growth (size u.recv) v.size f in
      let rest =
        sized (i + 1) vs (pre ++ v.size ∷ []) old (pre' ++ first_bytes v.columns ∷ []) old'
          (account size i (first_bytes v.columns) (merge i (view_of v) u.recv) u) fs
          (omega (arith, l)) (omega (arith, l')) (omega (arith, c, length-append pre (v.size ∷ [])))
          (omega (arith, c', length-append pre' (first_bytes v.columns ∷ [])))
          (written u.sz i _ v.size x pre old c g e)
          (written u.sz_byte i _ (first_bytes v.columns) x' pre' old' c' refl b) in
      (
        rest.0 ∙ ap some (append_assoc pre _ _),
        rest.1 ∙ ap some (append_assoc pre' _ _),
        omega (arith, rest.2, n),
      )
  sized i [] pre (x ∷ old) pre' old' u f l l' c c' e b = absurd (omega (arith, l))
  sized i [] pre [] pre' (x ∷ old') u f l l' c c' e b = absurd (omega (arith, l'))
  sized i (v ∷ vs) pre [] pre' old' u f l l' c c' e b = absurd (omega (arith, l))
  sized i (v ∷ vs) pre (x ∷ old) pre' [] u f l l' c c' e b = absurd (omega (arith, l'))

  counted :
      (vs : List Vector) (sz sz_byte : List ℕ) (recv : S)
      → All Fits64 vs
      → length sz ≡ length vs
      → length sz_byte ≡ length vs
      → let t =
          merge_all size merge 1 0 vs
            (record { recv = recv; sz = some sz; sz_byte = some sz_byte }) in
        (t.sz ≡ some (sizes vs))
        × (t.sz_byte ≡ some (byte_sizes vs))
        × (size t.recv ≡ size recv + sum (sizes vs))
  counted vs sz sz_byte recv f l l' = sized 0 vs [] sz [] sz_byte _ f l l' refl refl refl refl

  -- Vectors in one piece of memory, with elements of at least one byte, and an operation that adds the
  -- elements of a vector to the receiving object: from the buffers of their messages
  -- process_receive_buffer_with_prp returns with the numbers of elements in sz and the numbers of
  -- bytes in sz_byte, one for each vector, in order, whatever the two held before and however long
  -- they were, and the receiving object has grown by all elements together.
  pub process_receive_buffer-sizes :
      (w : ℕ) (vs : List Vector) (sz sz_byte : List ℕ) (recv : S)
      → 0 < w
      → All (IsVector (linear w)) vs
      → All Fits64 vs
      → (t : Unpacking S) × (process_receive_buffer size merge
            (linear w)
            1
            (buffers_of vs)
            (record { recv = recv; sz = some sz; sz_byte = some sz_byte })
          ≡ some t)
        × (t.sz ≡ some (sizes vs))
        × (t.sz_byte ≡ some (byte_sizes vs))
        × (size t.recv ≡ size recv + sum (sizes vs))
  process_receive_buffer-sizes w vs sz sz_byte recv p h f =
      let n = length (buffers_of vs) in
      let len = length-linear w vs h in
      let (counts, bytes, total) =
        counted vs (resize n sz) (resize n sz_byte) recv f (length-resize n sz ∙ len)
          (length-resize n sz_byte ∙ len) in
      (
        merge_all size merge 1 0 vs
            (record { recv = recv; sz = some (resize n sz); sz_byte = some (resize n sz_byte) }),
        process_receive_buffer-merge_all size merge (linear w) vs _ (omega arith) (p, tt) h,
        counts,
        bytes,
        total,
      )
