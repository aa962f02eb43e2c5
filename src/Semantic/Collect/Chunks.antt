-- ===== src/Semantic/Collect/Chunks.antt =====
-- The chunks that SScatter sends (VCluster/VCluster.hpp).
use native.Mathlib.Nat.{mul_comm, mul-add, mod-eq_of_lt}
use openfpm_vcluster.Prelude.{
  ℕ, zero, suc, ◌+◌, ◌-◌, ◌*◌, ◌%◌, ◌^◌, ◌≤◌, ◌<◌, ◌≡◌, refl, sym, ap, ap₂, ◌∙◌, some, List, [],
  ◌∷◌, ◌++◌, length, sum, take, drop, drop-drop, take-plus, append-nil, append_assoc, arith,
}
use openfpm_vcluster.Nbx.State.{Outgoing}
use openfpm_vcluster.Semantic.Reorder.{Buffer}
use openfpm_vcluster.Semantic.Pack.{messages}
use openfpm_vcluster.Semantic.Collect.{scatter_loop, scatter_messages}

-- The messages for chunks of `sz` elements of `w` bytes that lie one behind the other from `a` on
abbrev pub chunks_at : ℕ → ℕ → List ℕ → List ℕ → List Outgoing
chunks_at w a (p ∷ ps) (n ∷ sz) =
    record { sz = w * n; prc = p; ptr = a } ∷ chunks_at w (a + w * n) ps sz
chunks_at w a _ _ = []

abbrev starts : ℕ → ℕ → List ℕ → List ℕ
starts w a [] = []
starts w a (n ∷ sz) = a ∷ starts w (a + w * n) sz

abbrev spans : ℕ → List ℕ → List ℕ
spans w [] = []
spans w (n ∷ sz) = w * n ∷ spans w sz

le_mul : (w k : ℕ) → 0 < w → k ≤ w * k
le_mul zero k h = absurd (omega arith)
le_mul (suc w) k h = omega arith

pair_eq : {a b c d : List ℕ} → a ≡ c → b ≡ d → ◌≡◌ {A = List ℕ × List ℕ} (a, b) (c, d)
pair_eq e f = ap₂ (λ (x y : List ℕ). (x, y)) e f

scatter_loop_lem :
    (w base ptr : ℕ) (sz : List ℕ) (r : List ℕ × List ℕ)
    → 0 < w
    → base + w * ptr + sum (spans w sz) < 2 ^ 64
    → scatter_loop w base ptr sz r ≡ (r.0 ++ starts w (base + w * ptr) sz, r.1 ++ spans w sz)
unfolding scatter_loop
scatter_loop_lem w base ptr [] r p h = pair_eq (sym (append-nil r.0)) (sym (append-nil r.1))
scatter_loop_lem w base ptr (n ∷ sz) (a, b) p h =
    let next : w * (ptr + n) ≡ w * ptr + w * n = mul-add w ptr n in
    let small : ptr + n < 2 ^ 64 = omega (arith, le_mul w (ptr + n) p, next) in
    let start : (base + w * ptr) % 2 ^ 64 ≡ base + w * ptr = omega arith in
    let span : n * w % 2 ^ 64 ≡ w * n = omega (arith, mul_comm n w) in
    let step : base + w * (ptr + n) ≡ base + w * ptr + w * n = omega (arith, next) in
    rw (start, span, mod-eq_of_lt small)
      (scatter_loop_lem w base (ptr + n) sz _ p (omega (arith, next))
        ∙ pair_eq (append_assoc a _ _ ∙ ap (λ x. a ++ (base + w * ptr) ∷ starts w x sz) step)
            (append_assoc b _ _))

messages-chunks_at :
    (w a : ℕ) (ps sz : List ℕ)
    → length ps ≡ length sz
    → messages ps (spans w sz) (starts w a sz) ≡ some (chunks_at w a ps sz)
unfolding messages
messages-chunks_at w a [] [] h = refl
messages-chunks_at w a (p ∷ ps) (n ∷ sz) h =
    rw (messages-chunks_at w (a + w * n) ps sz (omega (arith, h))) refl
messages-chunks_at w a [] (n ∷ sz) h = absurd (omega (arith, h))
messages-chunks_at w a (p ∷ ps) [] h = absurd (omega (arith, h))

-- What MPI sends from an address in a vector at address `base` that holds `bytes`
abbrev pub read_at : ℕ → Buffer → Outgoing → Buffer
read_at base bytes o = take o.sz (drop (o.ptr - base) bytes)

abbrev pub all_read : ℕ → Buffer → List Outgoing → Buffer
all_read base bytes [] = []
all_read base bytes (o ∷ os) = read_at base bytes o ++ all_read base bytes os

all_read-chunks :
    (w base p : ℕ) (bytes : Buffer) (ps sz : List ℕ)
    → length ps ≡ length sz
    → all_read base bytes (chunks_at w (base + p) ps sz) ≡ take (sum (spans w sz)) (drop p bytes)
all_read-chunks w base p bytes [] [] h = refl
all_read-chunks w base p bytes (q ∷ ps) (n ∷ sz) h =
    let at : base + p - base ≡ p = omega arith in
    let next : base + p + w * n ≡ base + (p + w * n) = omega arith in
    ap₂ (λ (x y : Buffer). x ++ y) (ap (λ k. take (w * n) (drop k bytes)) at)
      (ap (λ k. all_read base bytes (chunks_at w k ps sz)) next
        ∙ all_read-chunks w base (p + w * n) bytes ps sz (omega (arith, h))
        ∙ ap (λ xs. take (sum (spans w sz)) xs) (sym (drop-drop (w * n) p bytes)))
    ∙ sym (take-plus (w * n) (sum (spans w sz)) (drop p bytes))
all_read-chunks w base p bytes [] (n ∷ sz) h = absurd (omega (arith, h))
all_read-chunks w base p bytes (q ∷ ps) [] h = absurd (omega (arith, h))

spans-sum : (w : ℕ) (sz : List ℕ) → sum (spans w sz) ≡ w * sum sz
spans-sum w [] = omega arith
spans-sum w (n ∷ sz) = omega (arith, spans-sum w sz, mul-add w n (sum sz))

-- A vector of elements of `w` bytes, at an address from which all elements named fit below 2 ^ 64,
-- and a number of elements for each process: the root's SScatter sends each process its number of
-- elements, in the order of the processes, each chunk from where the one before it ends, and the
-- chunks together are the first elements of the vector, as many as the numbers add up to, none
-- left out and none sent twice.
pub scatter_messages-chunks :
    (w base : ℕ) (bytes : Buffer) (ps sz : List ℕ)
    → 0 < w
    → base + w * sum sz < 2 ^ 64
    → length ps ≡ length sz
    → (scatter_messages w base ps sz ≡ some (chunks_at w base ps sz))
      × (all_read base bytes (chunks_at w base ps sz) ≡ take (w * sum sz) bytes)
unfolding scatter_messages
scatter_messages-chunks w base bytes ps sz p h e =
    let total = spans-sum w sz in
    let from : base + w * 0 ≡ base = omega arith in
    let here : base ≡ base + 0 = omega arith in
    (
      rw (scatter_loop_lem w base 0 sz ([], []) p (omega (arith, total)), from)
          (messages-chunks_at w base ps sz e),
      ap (λ k. all_read base bytes (chunks_at w k ps sz)) here
          ∙ all_read-chunks w base 0 bytes ps sz e
          ∙ ap (λ k. take k bytes) total,
    )
