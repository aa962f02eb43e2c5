-- ===== src/Semantic/Examples/Merges.antt =====
-- The merges, at vectors of a few elements.
use openfpm_vcluster.Prelude.{
  ℕ, zero, suc, ◌≡◌, refl, ap, true, false, Option, none, some, List, [], ◌∷◌, ◌++◌, length, arith,
}
use openfpm_vcluster.Semantic.Reorder.{Buffer}
use openfpm_vcluster.Semantic.Pack.{linear, Vector}
use openfpm_vcluster.Semantic.Pack.RoundTrip.{buffers_of}
use openfpm_vcluster.Semantic.Pack.Unpack.{Unpacking, View, process_receive_buffer}
use openfpm_vcluster.Semantic.Merge.{
  Receiver, recv_merge, recv_merge_gpu, gg_recv_merge, gg_recv_merge_run_device,
}
use openfpm_vcluster.Semantic.Merge.Filling.{place, IsReceiver, FillsAll, gg_recv_merge-fills}
use openfpm_vcluster.Semantic.Merge.Pairing.{
  recv_merge-pairs, recv_merge-past_end, recv_merge_gpu-ranges,
}
use openfpm_vcluster.Semantic.Examples.Packing.{
  two_widths, first_vector, second_vector, two_vectors-IsVector,
}

-- `n` bytes, the first of `xs`
abbrev fit : ℕ → List ℕ → List ℕ
fit zero xs = []
fit (suc n) [] = 0 ∷ fit n []
fit (suc n) (x ∷ xs) = x ∷ fit n xs

length-fit : (n : ℕ) (xs : List ℕ) → length (fit n xs) ≡ n
length-fit zero xs = refl
length-fit (suc n) [] = ap suc (length-fit n [])
length-fit (suc n) (x ∷ xs) = ap suc (length-fit n xs)

abbrev joined : List Buffer → List ℕ
joined [] = []
joined (b ∷ bs) = b ++ joined bs

abbrev cells_of : View → List ℕ
cells_of v = fit v.size (joined v.pieces)

-- A receiving object of bytes; the merges with `opart` and the ranges are noted behind them.
abbrev bytes : Receiver (List ℕ) ℕ
bytes = record {
  size = length;
  add_prp = λ v xs. xs ++ cells_of v;
  merge_prp_v = λ v p xs. xs ++ p ∷ [];
  merge_prp_v_device = λ v ps start stop xs. xs ++ start ∷ stop ∷ [];
  replace_prp_v = λ v start xs. place start (cells_of v) xs;
  replace_prp_device = λ v start xs. place start (cells_of v) xs;
  host_to_device = λ first last xs. xs;
}

bytes-IsReceiver : IsReceiver bytes (λ xs. xs) cells_of
bytes-IsReceiver = record {
  count = λ v. length-fit v.size (joined v.pieces);
  replaces = λ v start d h. refl;
  replaces_device = λ v start d h. refl;
  copies = λ first last d. refl;
}

-- A vector of two elements and one of one, of one byte each
abbrev small_vectors : List Vector
small_vectors =
    record { size = 2; columns = record { address = 100; bytes = 7 ∷ 8 ∷ [] } ∷ [] }
    ∷ record { size = 1; columns = record { address = 200; bytes = 9 ∷ [] } ∷ [] }
    ∷ []

-- Five elements, of which the last three are to be replaced
abbrev with_ghosts : Unpacking (List ℕ × ℕ)
with_ghosts = record { recv = (1 ∷ 2 ∷ 0 ∷ 0 ∷ 0 ∷ [], 2); sz = none; sz_byte = none }

gg_recv_merge-fills_example :
    FillsAll bytes
      (λ xs. xs)
      cells_of
      bytes-IsReceiver
      (linear 1)
      small_vectors
      with_ghosts
      (gg_recv_merge bytes)
    × FillsAll bytes
        (λ xs. xs)
        cells_of
        bytes-IsReceiver
        (linear 1)
        small_vectors
        with_ghosts
        (gg_recv_merge_run_device bytes true)
gg_recv_merge-fills_example =
    gg_recv_merge-fills bytes (λ xs. xs) cells_of bytes-IsReceiver (linear 1) small_vectors
      with_ghosts true (omega arith) (omega arith, tt) ((refl, tt), ((refl, tt), tt)) (omega arith)
      (omega arith)

-- The elements are where they belong.
filled_ghosts : place {E = ℕ} 2 (7 ∷ 8 ∷ 9 ∷ []) (1 ∷ 2 ∷ 0 ∷ 0 ∷ 0 ∷ []) ≡ 1 ∷ 2 ∷ 7 ∷ 8 ∷ 9 ∷ []
filled_ghosts = refl

abbrev counted : Option (List ℕ) → ℕ
counted none = 0
counted (some xs) = length xs

abbrev no_elements : Unpacking (Option (List ℕ))
no_elements = record { recv = some []; sz = some []; sz_byte = none }

recv_merge-pairs_example :
    (t : Unpacking (Option (List ℕ))) × (process_receive_buffer counted
        (recv_merge bytes (10 ∷ 20 ∷ []))
        (linear 1)
        1
        (buffers_of small_vectors)
        no_elements
      ≡ some t)
    × (t.recv ≡ some (10 ∷ 20 ∷ []))
recv_merge-pairs_example =
    recv_merge-pairs bytes counted (10 ∷ 20 ∷ []) 1 small_vectors no_elements [] (omega arith)
      ((refl, tt), ((refl, tt), tt)) refl

recv_merge-past_end_example :
    (t : Unpacking (Option (List ℕ))) × (process_receive_buffer counted
        (recv_merge bytes (10 ∷ 20 ∷ []))
        two_widths
        2
        (buffers_of (first_vector ∷ second_vector ∷ []))
        no_elements
      ≡ some t)
    × (t.recv ≡ none)
recv_merge-past_end_example =
    recv_merge-past_end bytes counted (10 ∷ 20 ∷ []) 1 2 [] first_vector second_vector []
      no_elements (omega arith, (omega arith, tt)) two_vectors-IsVector refl

recv_merge_gpu-ranges_example :
    (t : Unpacking (Option (List ℕ))) × (process_receive_buffer counted
        (recv_merge_gpu bytes false 2 (10 ∷ 20 ∷ 30 ∷ []) (2 ∷ 3 ∷ []))
        two_widths
        2
        (buffers_of (first_vector ∷ second_vector ∷ []))
        no_elements
      ≡ some t)
    × (t.recv ≡ some (0 ∷ 2 ∷ 2 ∷ 3 ∷ []))
recv_merge_gpu-ranges_example =
    recv_merge_gpu-ranges bytes counted (10 ∷ 20 ∷ 30 ∷ []) (2 ∷ 3 ∷ []) (1 ∷ 2 ∷ [])
      (first_vector ∷ second_vector ∷ []) no_elements [] (omega arith)
      (omega arith, (omega arith, tt)) two_vectors-IsVector (omega arith) (omega arith) refl
