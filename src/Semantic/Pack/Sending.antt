-- ===== src/Semantic/Pack/Sending.antt =====
-- What prepare_send_buffer makes of the objects to send (VCluster/VCluster_meta_function.hpp).
use native.Mathlib.Nat.{mul_comm}
use openfpm_vcluster.Prelude.{
  ℕ, suc, ◌+◌, ◌*◌, ◌≡◌, refl, sym, ap, ap₂, ◌∙◌, some, List, [], ◌∷◌, ◌++◌, map, length, replicate,
  append-nil, append_assoc, All, arith,
}
use openfpm_vcluster.Nbx.State.{Outgoing}
use openfpm_vcluster.Semantic.Pack.{
  Column, Layout, linear, interleaved, Vector, widths, set_size_buffers, addresses, set_buffers,
  construct_prc, direct, packing_request, PackMem, packing, request_all, pack_all, messages,
}

-- Each piece has the bytes of `n` elements of its width.
abbrev pub Fits : List ℕ → ℕ → List Column → Type 0
Fits [] n [] = Unit
Fits (w ∷ ws) n (c ∷ cs) = (length c.bytes ≡ w * n) × Fits ws n cs
Fits _ n _ = ⊥

abbrev pub IsVector : Layout → Vector → Type 0
IsVector l v = Fits (widths l) v.size v.columns

abbrev pub outgoing_of : ℕ → List Column → List Outgoing
outgoing_of p [] = []
outgoing_of p (c ∷ cs) = record { sz = length c.bytes; prc = p; ptr = c.address } ∷ outgoing_of p cs

-- A message for each piece of memory of each vector, to the vector's process
abbrev pub all_outgoing : List ℕ → List Vector → List Outgoing
all_outgoing (p ∷ ps) (v ∷ vs) = outgoing_of p v.columns ++ all_outgoing ps vs
all_outgoing _ _ = []

abbrev pub byte_lengths : List Column → List ℕ
byte_lengths [] = []
byte_lengths (c ∷ cs) = length c.bytes ∷ byte_lengths cs

abbrev pub all_lengths : List Vector → List ℕ
all_lengths [] = []
all_lengths (v ∷ vs) = byte_lengths v.columns ++ all_lengths vs

abbrev pub all_addresses : List Vector → List ℕ
all_addresses [] = []
all_addresses (v ∷ vs) = addresses v.columns ++ all_addresses vs

Fits-lengths :
    (ws : List ℕ) (n : ℕ) (cs : List Column) → Fits ws n cs → map (λ w. w * n) ws ≡ byte_lengths cs
Fits-lengths [] n [] h = refl
Fits-lengths (w ∷ ws) n (c ∷ cs) (e, h) =
    ap₂ (λ (x : ℕ) (xs : List ℕ). x ∷ xs) (sym e) (Fits-lengths ws n cs h)
Fits-lengths [] n (c ∷ cs) h = absurd h
Fits-lengths (w ∷ ws) n [] h = absurd h

set_size_buffers_lem :
    (l : Layout) (v : Vector) (sz : List ℕ)
    → IsVector l v
    → set_size_buffers l v sz ≡ sz ++ byte_lengths v.columns
unfolding set_size_buffers
set_size_buffers_lem (linear w) v sz h =
    ap (λ x. sz ++ x)
      (ap (λ (x : ℕ). x ∷ []) (mul_comm v.size w) ∙ Fits-lengths (w ∷ []) v.size v.columns h)
set_size_buffers_lem (interleaved ws) v sz h =
    ap (λ x. sz ++ x) (Fits-lengths ws v.size v.columns h)

pub request_all_lem :
    (l : Layout) (vs : List Vector) (r : ℕ × List ℕ)
    → All (IsVector l) vs
    → (request_all (map (direct l) vs) r).1 ≡ r.1 ++ all_lengths vs
unfolding request_all packing_request
request_all_lem l [] r h = sym (append-nil r.1)
request_all_lem l (v ∷ vs) (t, sz) (h, hs) =
    request_all_lem l vs (t + 0, set_size_buffers l v sz) hs
    ∙ ap (λ x. x ++ all_lengths vs) (set_size_buffers_lem l v sz h)
    ∙ append_assoc sz _ _

pub pack_all_lem :
    (l : Layout) (vs : List Vector) (r : PackMem × List ℕ)
    → pack_all (map (direct l) vs) r ≡ (r.0, r.1 ++ all_addresses vs)
unfolding pack_all packing set_buffers
pack_all_lem l [] r = ap (λ x. (r.0, x)) (sym (append-nil r.1))
pack_all_lem l (v ∷ vs) (m, a) =
    pack_all_lem l vs (m, a ++ addresses v.columns) ∙ ap (λ x. (m, x)) (append_assoc a _ _)

-- The messages of one vector stand before those of the others.
messages-append :
    (p : ℕ) (cs : List Column) (ps sz ptr : List ℕ) (outs : List Outgoing)
    → messages ps sz ptr ≡ some outs
    → messages (replicate (length cs) p ++ ps) (byte_lengths cs ++ sz) (addresses cs ++ ptr)
      ≡ some (outgoing_of p cs ++ outs)
unfolding messages
messages-append p [] ps sz ptr outs e = e
messages-append p (c ∷ cs) ps sz ptr outs e = rw (messages-append p cs ps sz ptr outs e)

construct_prc_lem :
    (l : Layout) (p : ℕ) (ps : List ℕ)
    → construct_prc l (p ∷ ps) ≡ replicate (length (widths l)) p ++ construct_prc l ps
unfolding construct_prc
construct_prc_lem (linear w) p ps = refl
construct_prc_lem (interleaved ws) p ps = refl

pub Fits-count : (ws : List ℕ) (n : ℕ) (cs : List Column) → Fits ws n cs → length ws ≡ length cs
Fits-count [] n [] h = refl
Fits-count (w ∷ ws) n (c ∷ cs) (e, h) = ap suc (Fits-count ws n cs h)
Fits-count [] n (c ∷ cs) h = absurd h
Fits-count (w ∷ ws) n [] h = absurd h

messages-nil : (l : Layout) → messages (construct_prc l []) [] [] ≡ some []
unfolding messages construct_prc
messages-nil (linear w) = refl
messages-nil (interleaved ws) = refl

messages_lem :
    (l : Layout) (ps : List ℕ) (vs : List Vector)
    → length ps ≡ length vs
    → All (IsVector l) vs
    → messages (construct_prc l ps) (all_lengths vs) (all_addresses vs) ≡ some (all_outgoing ps vs)
messages_lem l [] [] e h = messages-nil l
messages_lem l (p ∷ ps) (v ∷ vs) e (f, h) =
    ap (λ x. messages x (all_lengths (v ∷ vs)) (all_addresses (v ∷ vs)))
      (construct_prc_lem l p ps
        ∙ ap (λ n. replicate n p ++ construct_prc l ps) (Fits-count (widths l) v.size v.columns f))
    ∙ messages-append p v.columns _ _ _ _ (messages_lem l ps vs (omega (arith, e)) h)
messages_lem l [] (v ∷ vs) e h = absurd (omega (arith, e))
messages_lem l (p ∷ ps) [] e h = absurd (omega (arith, e))

-- Vectors that go as they are, one for each process of `ps`, whatever their layout and also where
-- some are empty: the exchange is handed one message for each piece of memory of each vector, in
-- the order of the vectors and of their properties, to the vector's process, from the piece's
-- address and with exactly its bytes; nothing is serialized.
pub messages-pack_all :
    (l : Layout) (ps : List ℕ) (vs : List Vector) (m : PackMem)
    → length ps ≡ length vs
    → All (IsVector l) vs
    → let sizes = request_all (map (direct l) vs) (0, []) in
      let packed = pack_all (map (direct l) vs) (m, []) in
      (messages (construct_prc l ps) sizes.1 packed.1 ≡ some (all_outgoing ps vs)) × (packed.0 ≡ m)
messages-pack_all l ps vs m e h =
    rw (request_all_lem l vs (0, []) h, pack_all_lem l vs (m, [])) (messages_lem l ps vs e h, refl)
