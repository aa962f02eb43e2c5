-- ===== src/Semantic/Pack/Serializing.antt =====
-- Where the serialized objects lie that prepare_send_buffer sends
-- (VCluster/VCluster_meta_function.hpp).
use openfpm_vcluster.Prelude.{
  ℕ, ◌+◌, ◌≡◌, refl, sym, ap, ap₂, ◌∙◌, some, List, [], ◌∷◌, ◌++◌, map, length, append-nil,
  append_assoc, length-append, All, arith,
}
use openfpm_vcluster.Nbx.State.{Outgoing}
use openfpm_vcluster.Semantic.Reorder.{Buffer}
use openfpm_vcluster.Semantic.Pack.{
  Serial, serial, packing_request, PackMem, packing, request_all, pack_all, messages,
}

-- The documented behaviour of packRequest: it asks for as many bytes as pack writes.
abbrev pub IsRequested : Serial → Type 0
IsRequested o = o.request ≡ length o.packed

abbrev pub all_packed : List Serial → Buffer
all_packed [] = []
all_packed (o ∷ os) = o.packed ++ all_packed os

-- The messages for objects that lie one behind the other from address `a` on
abbrev pub placed : ℕ → List ℕ → List Serial → List Outgoing
placed a (p ∷ ps) (o ∷ os) =
    record { sz = length o.packed; prc = p; ptr = a } ∷ placed (a + length o.packed) ps os
placed a _ _ = []

abbrev requests : List Serial → List ℕ
requests [] = []
requests (o ∷ os) = o.request ∷ requests os

abbrev places : ℕ → List Serial → List ℕ
places a [] = []
places a (o ∷ os) = a ∷ places (a + length o.packed) os

request_all-serial :
    (os : List Serial) (t : ℕ) (sz : List ℕ)
    → All IsRequested os
    → request_all (map serial os) (t, sz) ≡ (t + length (all_packed os), sz ++ requests os)
unfolding request_all packing_request
request_all-serial [] t sz h =
    ap₂ (λ (x : ℕ) (y : List ℕ). (x, y)) (omega arith) (sym (append-nil sz))
request_all-serial (o ∷ os) t sz (e, h) =
    request_all-serial os (t + (0 + o.request)) (sz ++ (0 + o.request) ∷ []) h
    ∙ ap₂ (λ (x : ℕ) (y : List ℕ). (x, y))
        (omega (arith, e, length-append o.packed (all_packed os)))
        (append_assoc sz _ _ ∙ ap (λ (r : ℕ). sz ++ r ∷ requests os) (omega arith))

pack_all-serial :
    (os : List Serial) (m : PackMem) (ptr : List ℕ)
    → pack_all (map serial os) (m, ptr) ≡ (
      record m { written = m.written ++ all_packed os },
      ptr ++ places (m.base + length m.written) os,
    )
unfolding pack_all packing
pack_all-serial [] m ptr =
    ap₂ (λ (x : Buffer) (y : List ℕ). (record m { written = x }, y)) (sym (append-nil m.written))
      (sym (append-nil ptr))
pack_all-serial (o ∷ os) m ptr =
    pack_all-serial os (record m { written = m.written ++ o.packed })
      (ptr ++ (m.base + length m.written) ∷ [])
    ∙ ap₂ (λ (x : Buffer) (y : List ℕ). (record m { written = x }, y)) (append_assoc m.written _ _)
        (append_assoc ptr _ _
          ∙ ap (λ (a : ℕ). ptr ++ (m.base + length m.written) ∷ places a os)
              (omega (arith, length-append m.written o.packed)))

messages-placed :
    (ps : List ℕ) (os : List Serial) (a : ℕ)
    → length ps ≡ length os
    → All IsRequested os
    → messages ps (requests os) (places a os) ≡ some (placed a ps os)
unfolding messages
messages-placed [] [] a e h = refl
messages-placed (p ∷ ps) (o ∷ os) a e (r, h) =
    rw (messages-placed ps os (a + length o.packed) (omega (arith, e)) h, r)
messages-placed [] (o ∷ os) a e h = absurd (omega (arith, e))
messages-placed (p ∷ ps) [] a e h = absurd (omega (arith, e))

-- Objects that are serialized, one for each process of `ps`, in a memory in which nothing is written
-- yet: they lie one behind the other from its start, the memory asked for is exactly what they
-- take together, and the exchange is handed one message for each object, to its process, with
-- its address and size.
pub messages-serial :
    (ps : List ℕ) (os : List Serial) (base : ℕ)
    → length ps ≡ length os
    → All IsRequested os
    → let sizes = request_all (map serial os) (0, []) in
      let packed = pack_all (map serial os) (record { base = base; written = [] }, []) in
      (messages ps sizes.1 packed.1 ≡ some (placed base ps os))
      × (packed.0.written ≡ all_packed os)
      × (sizes.0 ≡ length packed.0.written)
messages-serial ps os base e h =
    let at : base + 0 ≡ base = omega arith in
    rw
      (
        request_all-serial os 0 [] h,
        pack_all-serial os (record { base = base; written = [] }) [],
        at,
      )
      (messages-placed ps os base e h, refl, omega arith)
