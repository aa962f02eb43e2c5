-- ===== src/Semantic/Pack/Unpack.antt =====
-- The loops that make objects of the received buffers, and merge each in the receiving object
-- (VCluster/VCluster_meta_function.hpp).
use openfpm_vcluster.Prelude.{
  ℕ, zero, suc, ◌+◌, ◌-◌, ◌/◌, ◌%◌, ◌^◌, Option, none, some, List, [], ◌∷◌, length, set, drop,
  ◌>>=◌,
}
use openfpm_vcluster.Nbx.Post.{resize}
use openfpm_vcluster.Semantic.Pack.{Layout, linear, interleaved}
use openfpm_vcluster.Semantic.Reorder.{Buffer}

-- What a loop works on: the receiving object with the operation's own state, and the vectors `sz` and
-- `sz_byte`, where `none` is NULL.
pub record Unpacking (S : Type 0) : Type 0 where
  pub recv : S
  pub sz : Option (List ℕ)
  pub sz_byte : Option (List ℕ)

-- The vector over received memory: its number of elements, and a buffer for each property.
pub record View : Type 0 where
  pub size : ℕ
  pub pieces : List Buffer

abbrev pub set_some : Option (List ℕ) → ℕ → ℕ → Option (List ℕ)
set_some none i v = none
set_some (some xs) i v = some (set xs i v)

-- A write through a NULL pointer is not made.
abbrev pub resize_some : ℕ → Option (List ℕ) → Option (List ℕ)
resize_some n none = none
resize_some n (some xs) = some (resize n xs)

module _ {S : Type 0} (size : S → ℕ) where
  -- What follows each merge: the bytes of message `i`, and by how many elements `recv` grew.
  unfoldable pub account : ℕ → ℕ → S → Unpacking S → Unpacking S
  account i bytes new u = record {
    recv = new;
    sz = set_some u.sz i ((size new + 2 ^ 64 - size u.recv) % 2 ^ 64);
    sz_byte = set_some u.sz_byte i bytes;
  }

  module _ {X : Type 0} (unpack : Buffer → X) (merge : ℕ → X → S → S) where
    -- unpack_selector_with_prp::call_unpack, from message `i` on: Unpacker is `unpack`, and `merge` the
    -- operation's execute.
    unfoldable pub serial_loop : ℕ → List Buffer → Unpacking S → Unpacking S
    unfolding account
    serial_loop i [] u = u
    serial_loop i (b ∷ bs) u =
        serial_loop (i + 1) bs (account i (length b) (merge i (unpack b) u.recv) u)

    -- process_receive_buffer_with_prp, for objects that are serialized
    unfoldable pub process_serial_buffer : List Buffer → Unpacking S → Unpacking S
    unfolding serial_loop
    process_serial_buffer bs u = serial_loop 0 bs (record u {
      sz = resize_some (length bs) u.sz;
      sz_byte = resize_some (length bs) u.sz_byte;
    })

  module _ (merge : ℕ → View → S → S) where
    -- unpack_selector_with_prp_lin<true,…>::call_unpack_impl in the loop that calls it, for elements of
    -- `w` bytes
    unfoldable pub linear_loop : ℕ → ℕ → List Buffer → Unpacking S → Unpacking S
    unfolding account
    linear_loop w i [] u = u
    linear_loop w i (b ∷ bs) u =
        let v : View = record { size = length b / w; pieces = b ∷ [] } in
        linear_loop w (i + 1) bs (account i (length b) (merge i v u.recv) u)

-- process_receive_mem_traits_inte over the properties: the number of elements of the last, the
-- buffers, and what is left. `none` reads past the last buffer.
unfoldable pub take_pieces : List ℕ → ℕ → List Buffer → Option (View × List Buffer)
take_pieces [] n bs = some (record { size = n; pieces = [] }, bs)
take_pieces (w ∷ ws) n [] = none
take_pieces (w ∷ ws) n (b ∷ bs) = take_pieces ws (length b / w) bs >>= λ r.
    some (record { size = r.0.size; pieces = b ∷ r.0.pieces }, r.1)

module _ {S : Type 0} (size : S → ℕ) (merge : ℕ → View → S → S) where
  -- unpack_selector_with_prp_lin<false,…>::call_unpack_impl in the loop that calls it: one vector from
  -- the buffers `i`, `i + 1`, …, then on by `stride` buffers, the number of properties that are
  -- merged. `none` is a loop that reads past its end, or takes more rounds than `fuel`.
  unfoldable pub interleaved_loop :
      List ℕ → ℕ → ℕ → ℕ → List Buffer → Unpacking S → Option (Unpacking S)
  unfolding account take_pieces
  interleaved_loop ws stride fuel i [] u = some u
  interleaved_loop ws stride zero i (b ∷ bs) u = none
  interleaved_loop ws stride (suc fuel) i (b ∷ bs) u = take_pieces ws 0 (b ∷ bs) >>= λ r.
      interleaved_loop ws stride fuel (i + stride) (drop stride (b ∷ bs))
        (account size i (length b) (merge i r.0 u.recv) u)

  -- unpack_selector_with_prp<true,…>::call_unpack; as many rounds as there are buffers are enough.
  unfoldable pub unpack_vectors : Layout → ℕ → List Buffer → Unpacking S → Option (Unpacking S)
  unfolding linear_loop interleaved_loop
  unpack_vectors (linear w) stride bs u =
      some
        (linear_loop size merge w 0 bs (record u { sz_byte = resize_some (length bs) u.sz_byte }))
  unpack_vectors (interleaved ws) stride bs u =
      interleaved_loop ws stride (length bs) 0 bs
        (record u { sz_byte = resize_some (length bs) u.sz_byte })

  -- process_receive_buffer_with_prp, for vectors that go as they are
  unfoldable pub process_receive_buffer :
      Layout → ℕ → List Buffer → Unpacking S → Option (Unpacking S)
  unfolding unpack_vectors
  process_receive_buffer l stride bs u =
      unpack_vectors l stride bs (record u { sz = resize_some (length bs) u.sz })
