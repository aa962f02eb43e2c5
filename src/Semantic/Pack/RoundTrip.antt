-- ===== src/Semantic/Pack/RoundTrip.antt =====
-- That the received buffers become the vectors that were sent (VCluster/VCluster_meta_function.hpp).
use native.Mathlib.Nat.{mul-div_cancel_left}
use openfpm_vcluster.Prelude.{
  ℕ, zero, suc, ◌+◌, ◌/◌, ◌≤◌, ◌<◌, ◌≡◌, refl, ap, ◌∙◌, some, List, [], ◌∷◌, ◌++◌, length, drop,
  length-append, All, arith,
}
use openfpm_vcluster.Semantic.Reorder.{Buffer}
use openfpm_vcluster.Semantic.Pack.{Column, Layout, linear, interleaved, Vector, widths}
use openfpm_vcluster.Semantic.Pack.Sending.{Fits, IsVector}
use openfpm_vcluster.Semantic.Pack.Unpack.{
  Unpacking, View, account, linear_loop, take_pieces, interleaved_loop, resize_some, unpack_vectors,
  process_receive_buffer,
}

abbrev pub bytes_of : List Column → List Buffer
bytes_of [] = []
bytes_of (c ∷ cs) = c.bytes ∷ bytes_of cs

-- The buffers of the messages for these vectors, in the order in which they are sent
abbrev pub buffers_of : List Vector → List Buffer
buffers_of [] = []
buffers_of (v ∷ vs) = bytes_of v.columns ++ buffers_of vs

abbrev pub view_of : Vector → View
view_of v = record { size = v.size; pieces = bytes_of v.columns }

abbrev pub first_bytes : List Column → ℕ
first_bytes [] = 0
first_bytes (c ∷ cs) = length c.bytes

-- The reference: each vector is merged once, in order, under the number of its first buffer.
unfoldable pub merge_all :
    {S : Type 0} → (S → ℕ) → (ℕ → View → S → S) → ℕ → ℕ → List Vector → Unpacking S → Unpacking S
merge_all size merge stride i [] u = u
merge_all size merge stride i (v ∷ vs) u =
    merge_all size merge stride (i + stride) vs
      (account size i (first_bytes v.columns) (merge i (view_of v) u.recv) u)

abbrev pub Positive : List ℕ → Type 0
Positive = All λ w. 0 < w

take_pieces-Fits :
    (w : ℕ) (ws : List ℕ) (m n : ℕ) (cs : List Column) (bs : List Buffer)
    → Positive (w ∷ ws)
    → Fits (w ∷ ws) n cs
    → take_pieces (w ∷ ws) m (bytes_of cs ++ bs)
      ≡ some (record { size = n; pieces = bytes_of cs }, bs)
unfolding take_pieces
take_pieces-Fits w [] m n (c ∷ []) bs (p, ps) (e, h) =
    let k : length c.bytes / w ≡ n = ap (λ (x : ℕ). x / w) e ∙ mul-div_cancel_left n p in rw k
take_pieces-Fits w (x ∷ ws) m n (c ∷ cs) bs (p, ps) (e, h) =
    rw (take_pieces-Fits x ws (length c.bytes / w) n cs bs ps h)
take_pieces-Fits w [] m n (c ∷ d ∷ cs) bs p (e, h) = absurd h
take_pieces-Fits w ws m n [] bs p h = absurd h

drop-bytes_of :
    (ws : List ℕ) (n : ℕ) (cs : List Column) (bs : List Buffer)
    → Fits ws n cs
    → drop (length ws) (bytes_of cs ++ bs) ≡ bs
drop-bytes_of [] n [] bs h = refl
drop-bytes_of (w ∷ ws) n (c ∷ cs) bs (e, h) = drop-bytes_of ws n cs bs h
drop-bytes_of [] n (c ∷ cs) bs h = absurd h
drop-bytes_of (w ∷ ws) n [] bs h = absurd h

module _ {S : Type 0} (size : S → ℕ) (merge : ℕ → View → S → S) where
  linear_one :
      (w i n : ℕ) (cs : List Column) (bs : List Buffer) (u : Unpacking S)
      → 0 < w
      → Fits (w ∷ []) n cs
      → linear_loop size merge w i (bytes_of cs ++ bs) u
        ≡ linear_loop size merge w (i + 1) bs (
            account size i
              (first_bytes cs)
              (merge i (record { size = n; pieces = bytes_of cs }) u.recv)
              u)
  unfolding linear_loop
  linear_one w i n (c ∷ []) bs u p (e, h) =
      let k : length c.bytes / w ≡ n = ap (λ (x : ℕ). x / w) e ∙ mul-div_cancel_left n p in rw k
  linear_one w i n (c ∷ d ∷ cs) bs u p (e, h) = absurd h
  linear_one w i n [] bs u p h = absurd h

  -- In the loop for vectors in one piece of memory, the buffers of the messages for any vectors
  -- become these vectors again, each with its number of elements, and each is merged once, in
  -- order; the loop does what the reference loop over the vectors does.
  pub linear_loop-merge_all :
      (w i : ℕ) (vs : List Vector) (u : Unpacking S)
      → 0 < w
      → All (IsVector (linear w)) vs
      → linear_loop size merge w i (buffers_of vs) u ≡ merge_all size merge 1 i vs u
  unfolding linear_loop merge_all
  linear_loop-merge_all w i [] u p h = refl
  linear_loop-merge_all w i (v ∷ vs) u p (e, h) =
      linear_one w i v.size v.columns (buffers_of vs) u p e
      ∙ linear_loop-merge_all w (i + 1) vs _ p h

  interleaved-nil :
      (ws : List ℕ) (stride fuel i : ℕ) (u : Unpacking S)
      → interleaved_loop size merge ws stride fuel i [] u ≡ some u
  unfolding interleaved_loop
  interleaved-nil ws stride zero i u = refl
  interleaved-nil ws stride (suc fuel) i u = refl

  interleaved_one :
      (w : ℕ) (ws : List ℕ) (fuel i n : ℕ) (cs : List Column) (bs : List Buffer) (u : Unpacking S)
      → Positive (w ∷ ws)
      → Fits (w ∷ ws) n cs
      → interleaved_loop size merge (w ∷ ws) (length (w ∷ ws)) (suc fuel) i (bytes_of cs ++ bs) u
        ≡ interleaved_loop size merge (w ∷ ws) (length (w ∷ ws)) fuel (i + length (w ∷ ws)) bs (
            account size i
              (first_bytes cs)
              (merge i (record { size = n; pieces = bytes_of cs }) u.recv)
              u)
  unfolding interleaved_loop
  interleaved_one w ws fuel i n (c ∷ cs) bs u p h =
      rw (take_pieces-Fits w ws 0 n (c ∷ cs) bs p h, drop-bytes_of (w ∷ ws) n (c ∷ cs) bs h)
  interleaved_one w ws fuel i n [] bs u p h = absurd h

  -- In the loop for vectors with their properties apart, the buffers of the messages for any
  -- vectors, each property's after the other, become these vectors again, and each is merged once,
  -- in order. The loop ends, and reads no buffer twice or past the end, where it goes on by as many
  -- buffers as there are properties, of which there is one at least, with elements of at least one
  -- byte; as many rounds as there are vectors are enough.
  pub interleaved_loop-merge_all :
      (w : ℕ) (ws : List ℕ) (fuel i : ℕ) (vs : List Vector) (u : Unpacking S)
      → Positive (w ∷ ws)
      → length vs ≤ fuel
      → All (IsVector (interleaved (w ∷ ws))) vs
      → interleaved_loop size merge (w ∷ ws) (length (w ∷ ws)) fuel i (buffers_of vs) u
        ≡ some (merge_all size merge (length (w ∷ ws)) i vs u)
  unfolding merge_all
  interleaved_loop-merge_all w ws fuel i [] u p l h =
      interleaved-nil (w ∷ ws) (length (w ∷ ws)) fuel i u
  interleaved_loop-merge_all w ws (suc fuel) i (v ∷ vs) u p l (e, h) =
      interleaved_one w ws fuel i v.size v.columns (buffers_of vs) u p e
      ∙ interleaved_loop-merge_all w ws fuel _ vs _ p (omega arith) h
  interleaved_loop-merge_all w ws zero i (v ∷ vs) u p l h = absurd (omega arith)

-- What process_receive_buffer_with_prp makes the vectors sz and sz_byte before it unpacks `n` buffers
abbrev pub prepared : {S : Type 0} → ℕ → Unpacking S → Unpacking S
prepared n u = record u { sz = resize_some n u.sz; sz_byte = resize_some n u.sz_byte }

bytes_of-pos :
    (w : ℕ) (ws : List ℕ) (n : ℕ) (cs : List Column) → Fits (w ∷ ws) n cs → 0 < length (bytes_of cs)
bytes_of-pos w ws n [] f = absurd f
bytes_of-pos w ws n (c ∷ cs) f = omega arith

length-buffers_of :
    (w : ℕ) (ws : List ℕ) (vs : List Vector)
    → All (IsVector (interleaved (w ∷ ws))) vs
    → length vs ≤ length (buffers_of vs)
length-buffers_of w ws [] h = omega arith
length-buffers_of w ws (v ∷ vs) (f, h) = omega (
  arith,
  length-append (bytes_of v.columns) (buffers_of vs),
  bytes_of-pos w ws v.size v.columns f,
  length-buffers_of w ws vs h,
)

module _ {S : Type 0} (size : S → ℕ) (merge : ℕ → View → S → S) where
  -- For vectors of either layout, with elements of at least one byte and one property at least:
  -- from the buffers of the messages for any vectors, process_receive_buffer_with_prp makes these
  -- vectors again, each with its number of elements, and merges each once, in order, under the
  -- number of its first buffer, after it made sz and sz_byte as long as there are buffers. It reads
  -- no buffer twice and none past the end.
  pub process_receive_buffer-merge_all :
      (l : Layout) (vs : List Vector) (u : Unpacking S)
      → 0 < length (widths l)
      → Positive (widths l)
      → All (IsVector l) vs
      → process_receive_buffer size merge l (length (widths l)) (buffers_of vs) u
        ≡ some (merge_all size merge (length (widths l)) 0 vs (prepared (length (buffers_of vs)) u))
  unfolding process_receive_buffer unpack_vectors
  process_receive_buffer-merge_all (linear w) vs u n p h =
      ap some (linear_loop-merge_all size merge w 0 vs _ p.0 h)
  process_receive_buffer-merge_all (interleaved (w ∷ ws)) vs u n p h =
      interleaved_loop-merge_all size merge w ws _ 0 vs _ p (length-buffers_of w ws vs h) h
  process_receive_buffer-merge_all (interleaved []) vs u n p h = absurd (omega (arith, n))
