-- ===== src/Semantic/Send/KnownPairing.antt =====
-- What a call with known receivers sends of vectors whose properties lie apart (VCluster/VCluster.hpp,
-- prepare_send_buffer: these calls are handed prc_send, not prc_send_).
use openfpm_vcluster.Prelude.{
  ℕ, suc, ◌*◌, ◌%◌, ◌^◌, ◌≤◌, ◌<◌, true, ◌≡◌, refl, sym, ap, ◌∙◌, some, List, [], ◌∷◌, ◌++◌, map,
  length, length-map, length-append, All, arith,
}
use openfpm_vcluster.Nbx.State.{Outgoing}
use openfpm_vcluster.Semantic.Pack.{
  Column, Layout, Vector, widths, addresses, direct, PackMem, request_all, pack_all, messages,
}
use openfpm_vcluster.Semantic.Pack.Sending.{
  IsVector, Fits-count, all_lengths, all_addresses, byte_lengths, request_all_lem, pack_all_lem,
}
use openfpm_vcluster.Nbx.Post.{async_known}
use openfpm_vcluster.Semantic.Alloc.{msg_alloc_known}
use openfpm_vcluster.Semantic.Send.{
  Vcluster, Request, has_flag, receive_known, known_element_or_byte, prepare_send_buffer,
}
use openfpm_vcluster.Semantic.Send.Starting.{IsIdle, posted, prepare-lone}
use openfpm_vcluster.Semantic.Send.KnownExchange.{
  beside, element_bytes, known_memory, known_messages_of, fill_and_post-known,
}

-- The pieces of memory of all vectors, in order
abbrev pub all_columns : List Vector → List Column
all_columns [] = []
all_columns (v ∷ vs) = v.columns ++ all_columns vs

abbrev pub to : ℕ → Column → Outgoing
to p c = record { sz = length c.bytes; prc = p; ptr = c.address }

-- A message for each process, with the piece of memory that has the same number
abbrev pub paired : List ℕ → List Column → List Outgoing
paired (p ∷ ps) (c ∷ cs) = to p c ∷ paired ps cs
paired _ _ = []

byte_lengths-append :
    (xs ys : List Column) → byte_lengths (xs ++ ys) ≡ byte_lengths xs ++ byte_lengths ys
byte_lengths-append [] ys = refl
byte_lengths-append (c ∷ cs) ys = ap (λ t. length c.bytes ∷ t) (byte_lengths-append cs ys)

addresses-append : (xs ys : List Column) → addresses (xs ++ ys) ≡ addresses xs ++ addresses ys
addresses-append [] ys = refl
addresses-append (c ∷ cs) ys = ap (λ t. c.address ∷ t) (addresses-append cs ys)

all_lengths-columns : (vs : List Vector) → all_lengths vs ≡ byte_lengths (all_columns vs)
all_lengths-columns [] = refl
all_lengths-columns (v ∷ vs) =
    ap (λ t. byte_lengths v.columns ++ t) (all_lengths-columns vs)
    ∙ sym (byte_lengths-append v.columns (all_columns vs))

all_addresses-columns : (vs : List Vector) → all_addresses vs ≡ addresses (all_columns vs)
all_addresses-columns [] = refl
all_addresses-columns (v ∷ vs) =
    ap (λ t. addresses v.columns ++ t) (all_addresses-columns vs)
    ∙ sym (addresses-append v.columns (all_columns vs))

messages-paired :
    (ps : List ℕ) (cs : List Column)
    → length ps ≤ length cs
    → messages ps (byte_lengths cs) (addresses cs) ≡ some (paired ps cs)
unfolding messages
messages-paired [] [] h = refl
messages-paired [] (c ∷ cs) h = refl
messages-paired (p ∷ ps) [] h = absurd (omega (arith, h))
messages-paired (p ∷ ps) (c ∷ cs) h = rw (messages-paired ps cs (omega (arith, h))) refl

enough_columns :
    (l : Layout) (vs : List Vector)
    → 0 < length (widths l)
    → All (IsVector l) vs
    → length vs ≤ length (all_columns vs)
enough_columns l [] w h = omega arith
enough_columns l (v ∷ vs) w (h, hs) = omega (
  arith,
  Fits-count (widths l) v.size v.columns h,
  enough_columns l vs w hs,
  length-append v.columns (all_columns vs),
)

-- A call with known receivers, of vectors of one layout, one for each process: the exchange is handed
-- as many messages as there are processes, and message number i takes the piece of memory that has
-- number i among those of all vectors to process number i, whichever vector the piece is of.
known_messages-paired :
    (l : Layout) (ps : List ℕ) (vs : List Vector) (m : PackMem)
    → length ps ≡ length vs
    → 0 < length (widths l)
    → All (IsVector l) vs
    → let sizes = request_all (map (direct l) vs) (0, []) in
      let packed = pack_all (map (direct l) vs) (m, []) in
      messages ps sizes.1 packed.1 ≡ some (paired ps (all_columns vs))
known_messages-paired l ps vs m e w h =
    rw
      (
        request_all_lem l vs (0, []) h,
        pack_all_lem l vs (m, []),
        all_lengths-columns vs,
        all_addresses-columns vs,
      )
      (messages-paired ps (all_columns vs) (omega (arith, e, enough_columns l vs w h)))

-- Vectors of one layout, one for each process, the first of which has two pieces of memory or more, in
-- a call with known senders, receivers and numbers of elements, where no other call is outstanding:
-- the exchange is posted with one message for each process. The first process is sent the first
-- piece of its vector; the second process the second piece of the first process's vector, in place
-- of its own; and each further process the piece that is next in order.
pub known_call-misplaced :
    (r : Request) (s : Vcluster) (l : Layout) (w p q : ℕ) (ps : List ℕ) (v : Vector)
    (vs : List Vector) (c d : Column) (cs : List Column)
    → IsIdle s
    → has_flag r.opt receive_known ≡ true
    → has_flag r.opt known_element_or_byte ≡ true
    → r.value_size ≡ some w
    → length (s.nbx.mem.prc r.prc_recv) ≡ length r.sz_recv
    → r.prc_send ≡ p ∷ q ∷ ps
    → r.send ≡ map (direct l) (v ∷ vs)
    → suc (suc (length ps)) ≡ suc (length vs)
    → All (IsVector l) (v ∷ vs)
    → 0 < length (widths l)
    → v.columns ≡ c ∷ d ∷ cs
    → prepare_send_buffer r s
      ≡ some (
          posted r s (
            async_known
              (to p c ∷ to q d ∷ paired ps (cs ++ all_columns vs))
              (beside (s.nbx.mem.prc r.prc_recv) (element_bytes w r.sz_recv))
              msg_alloc_known
              0
              (record s.nbx { mem = known_memory r w s.nbx.mem })))
known_call-misplaced r s l w p q ps v vs c d cs idle k b z n to_them of_them e h one two =
    let outs = to p c ∷ to q d ∷ paired ps (cs ++ all_columns vs) in
    let made : known_messages_of r ≡ some outs =
      rw (to_them, of_them)
        (known_messages-paired l (p ∷ q ∷ ps) (v ∷ vs) (record { base = r.base; written = [] }) e
            one h
          ∙ ap (λ x. some (paired (p ∷ q ∷ ps) (x ++ all_columns vs))) two) in
    prepare-lone r s _ idle (
      fill_and_post-known r s outs w idle k b z
        (n ∙ sym (length-map (λ x. x * w % 2 ^ 64) r.sz_recv)) made)
