-- ===== src/Semantic/Send/Variants.antt =====
-- The overloads of SSendRecvP and SSendRecvPWait that do not give back the sizes in bytes, and the
-- asynchronous calls with properties (VCluster/VCluster.hpp).
use openfpm_vcluster.Prelude.{
  ℕ, zero, suc, ◌+◌, ◌/◌, ◌≡◌, refl, ap, ◌∙◌, Bool, true, false, Option, none, some, List, [], ◌∷◌,
  length, drop, leb, ◌>>=◌, Bool-cases, inl, inr,
}
use openfpm_vcluster.Wire.{Mpi}
use openfpm_vcluster.Tags.{nqueue}
use openfpm_vcluster.Nbx.Wait.{Answers, nbx_wait}
use openfpm_vcluster.Semantic.Reorder.{Buffer, Entry}
use openfpm_vcluster.Semantic.Pack.{Layout, linear, interleaved}
use openfpm_vcluster.Semantic.Pack.Unpack.{
  Unpacking, View, account, linear_loop, take_pieces, interleaved_loop, unpack_vectors,
  process_receive_buffer, resize_some,
}
use openfpm_vcluster.Semantic.Send.{
  Vcluster, Request, prepare_send_buffer, free_mem, reorder_at, complete, ssend_recv,
  ssend_recv_async, ssend_recv_wait, next_wait, with_contents, ssend_recv_p, ssend_recv_p_op,
  ssend_recv_p_wait, ssend_recv_p_op_wait,
}
use openfpm_vcluster.Semantic.Send.Halves.{bind_ends}

-- SSendRecvPAsync; the overload with `sz_recv_byte_out` does not use it.
abbrev pub ssend_recv_p_async : Request → Vcluster → Option Vcluster
ssend_recv_p_async = ssend_recv_async

-- SSendRecvP_opAsync
abbrev pub ssend_recv_p_op_async : Request → Vcluster → Option Vcluster
ssend_recv_p_op_async = ssend_recv_async

module _ (m : Mpi) (sort : List Entry → List Entry) {S : Type 0}
    (unpack : List Buffer → Unpacking S → Option (Unpacking S)) where
  -- SSendRecvP without sz_recv_byte_out
  abbrev pub ssend_recv_p_sizes : Request → Answers → S → Vcluster → Option (Vcluster × Unpacking S)
  ssend_recv_p_sizes r a recv s =
      ssend_recv m sort unpack r a (record { recv = recv; sz = some r.sz_recv; sz_byte = none }) s

  -- SSendRecvPWait without sz_recv_byte_out
  abbrev pub ssend_recv_p_sizes_wait :
      ℕ → Answers → S → List ℕ → Vcluster → Option (Vcluster × Unpacking S)
  ssend_recv_p_sizes_wait prc_recv a recv sz_recv s =
      ssend_recv_wait m sort unpack prc_recv a
        (record { recv = recv; sz = some sz_recv; sz_byte = none }) s

-- Without the sizes in bytes, or without both
abbrev pub dropping : {S : Type 0} → Bool → Unpacking S → Unpacking S
dropping false u = record u { sz_byte = none }
dropping true u = record u { sz = none; sz_byte = none }

module _ {S : Type 0} (size : S → ℕ) where
  merged-dropping :
      (b : Bool) (i n : ℕ) (f : S → S) (u : Unpacking S)
      → account size i n (f (dropping b u).recv) (dropping b u)
        ≡ dropping b (account size i n (f u.recv) u)
  unfolding account
  merged-dropping false i n f u = refl
  merged-dropping true i n f u = refl

  dropping-resized :
      (b : Bool) (n : ℕ) (u : Unpacking S)
      → record (dropping b u) { sz_byte = resize_some n (dropping b u).sz_byte }
        ≡ dropping b (record u { sz_byte = resize_some n u.sz_byte })
  dropping-resized false n u = refl
  dropping-resized true n u = refl

  dropping-sized :
      (b : Bool) (n : ℕ) (u : Unpacking S)
      → record (dropping b u) { sz = resize_some n (dropping b u).sz }
        ≡ dropping b (record u { sz = resize_some n u.sz })
  dropping-sized false n u = refl
  dropping-sized true n u = refl

  module _ (merge : ℕ → View → S → S) where
    linear_loop-dropping :
        (b : Bool) (w i : ℕ) (bs : List Buffer) (u : Unpacking S)
        → linear_loop size merge w i bs (dropping b u)
          ≡ dropping b (linear_loop size merge w i bs u)
    unfolding linear_loop
    linear_loop-dropping b w i [] u = refl
    linear_loop-dropping b w i (x ∷ bs) u =
        let v : View = record { size = length x / w; pieces = x ∷ [] } in
        ap (linear_loop size merge w (i + 1) bs) (merged-dropping b i (length x) (merge i v) u)
        ∙ linear_loop-dropping b w (i + 1) bs (account size i (length x) (merge i v u.recv) u)

    interleaved_loop-dropping :
        (b : Bool) (ws : List ℕ) (stride fuel i : ℕ) (bs : List Buffer) (u : Unpacking S)
        → interleaved_loop size merge ws stride fuel i bs (dropping b u)
          ≡ (interleaved_loop size merge ws stride fuel i bs u >>= λ v. some (dropping b v))
    unfolding interleaved_loop
    interleaved_loop-dropping b ws stride fuel i [] u = refl
    interleaved_loop-dropping b ws stride zero i (x ∷ bs) u = refl
    interleaved_loop-dropping b ws stride (suc fuel) i (x ∷ bs) u =
        bind_ends (take_pieces ws 0 (x ∷ bs))
          (λ r.
            interleaved_loop size merge ws stride fuel (i + stride) (drop stride (x ∷ bs))
              (account size i (length x) (merge i r.0 u.recv) u))
          (λ r.
            interleaved_loop size merge ws stride fuel (i + stride) (drop stride (x ∷ bs))
              (account size i (length x) (merge i r.0 (dropping b u).recv) (dropping b u)))
          (dropping b)
          λ r.
            let rest = drop stride (x ∷ bs) in
            ap (interleaved_loop size merge ws stride fuel (i + stride) rest)
              (merged-dropping b i (length x) (merge i r.0) u)
            ∙ interleaved_loop-dropping b ws stride fuel (i + stride) rest
                (account size i (length x) (merge i r.0 u.recv) u)

    unpack_vectors-dropping :
        (b : Bool) (l : Layout) (stride : ℕ) (bs : List Buffer) (u : Unpacking S)
        → unpack_vectors size merge l stride bs (dropping b u)
          ≡ (unpack_vectors size merge l stride bs u >>= λ v. some (dropping b v))
    unfolding unpack_vectors
    unpack_vectors-dropping b (linear w) stride bs u =
        rw (dropping-resized b (length bs) u) (ap some (linear_loop-dropping b w 0 bs _))
    unpack_vectors-dropping b (interleaved ws) stride bs u =
        rw (dropping-resized b (length bs) u)
          (interleaved_loop-dropping b ws stride (length bs) 0 bs _)

    process_receive_buffer-dropping :
        (b : Bool) (l : Layout) (stride : ℕ) (bs : List Buffer) (u : Unpacking S)
        → process_receive_buffer size merge l stride bs (dropping b u)
          ≡ (process_receive_buffer size merge l stride bs u >>= λ v. some (dropping b v))
    unfolding process_receive_buffer
    process_receive_buffer-dropping b l stride bs u =
        rw (dropping-sized b (length bs) u) (unpack_vectors-dropping b l stride bs _)

-- An unpacking that does with dropped sizes what it does with them, and drops them
abbrev pub Drops : {S : Type 0} → Bool → (List Buffer → Unpacking S → Option (Unpacking S)) → Type 0
Drops {S} b unpack =
    (bs : List Buffer) (u : Unpacking S)
    → unpack bs (dropping b u) ≡ (unpack bs u >>= λ v. some (dropping b v))

module _ (m : Mpi) (sort : List Entry → List Entry) {S : Type 0}
    (unpack : List Buffer → Unpacking S → Option (Unpacking S)) (b : Bool)
    (drops : Drops b unpack) where
  abbrev dropped : Vcluster × Unpacking S → Vcluster × Unpacking S
  dropped r = (r.0, dropping b r.1)

  unpacked_dropping :
      (bs : List Buffer) (u : Unpacking S) (t : Vcluster)
      → (unpack bs (dropping b u) >>= λ v. some (t, v))
        ≡ ((unpack bs u >>= λ v. some (t, v)) >>= λ r. some (dropped r))
  unpacked_dropping bs u t = go (unpack bs u) (unpack bs (dropping b u)) (drops bs u)
    where
      go :
          (o p : Option (Unpacking S))
          → p ≡ (o >>= λ v. some (dropping b v))
          → (p >>= λ v. some (t, v)) ≡ ((o >>= λ v. some (t, v)) >>= λ r. some (dropped r))
      go none p e = ap (λ x. x >>= λ v. some (t, v)) e
      go (some v) p e = ap (λ x. x >>= λ v. some (t, v)) e

  complete-dropping :
      (j caller : ℕ) (a : Answers) (u : Unpacking S) (s : Vcluster)
      → complete m sort unpack j caller a (dropping b u) s
        ≡ (complete m sort unpack j caller a u s >>= λ r. some (dropped r))
  unfolding complete
  complete-dropping j caller a u s = elim (Bool-cases (leb nqueue j)) [
    | inl e ↦ rw e refl
    | inr e ↦ rw e (
        bind_ends (nbx_wait m a s.nbx) _ _ dropped λ n.
          bind_ends (reorder_at sort j caller (record s { nbx = with_contents a n })) _ _ dropped
            λ r. bind_ends (free_mem j r.0) _ _ dropped λ t. unpacked_dropping r.1 u t)
  ]

  ssend_recv-dropping :
      (r : Request) (a : Answers) (u : Unpacking S) (s : Vcluster)
      → ssend_recv m sort unpack r a (dropping b u) s
        ≡ (ssend_recv m sort unpack r a u s >>= λ x. some (dropped x))
  unfolding ssend_recv
  ssend_recv-dropping r a u s =
      bind_ends (prepare_send_buffer r s) _ _ dropped λ t. complete-dropping t.scnt r.prc_recv a u t

  ssend_recv_wait-dropping :
      (caller : ℕ) (a : Answers) (u : Unpacking S) (s : Vcluster)
      → ssend_recv_wait m sort unpack caller a (dropping b u) s
        ≡ (ssend_recv_wait m sort unpack caller a u s >>= λ x. some (dropped x))
  unfolding ssend_recv_wait
  ssend_recv_wait-dropping caller a u s =
      ap (λ o. o >>= λ r. some (next_wait r.0, r.1)) (complete-dropping s.pcnt caller a u s)
      ∙ swap (complete m sort unpack s.pcnt caller a u s)
    where
      swap :
          (o : Option (Vcluster × Unpacking S))
          → ((o >>= λ r. some (dropped r)) >>= λ r. some (next_wait r.0, r.1))
            ≡ ((o >>= λ r. some (next_wait r.0, r.1)) >>= λ x. some (dropped x))
      swap none = refl
      swap (some r) = refl

-- The variants for vectors that go as they are, whatever their layout: without sz_recv_byte_out,
-- SSendRecvP and SSendRecvPWait do what they do with it, but to give the sizes in bytes; SSendRecvP_op
-- and SSendRecvP_opWait, with the same operation, give no sizes at all. The process and the receiving
-- object are the same, whatever MPI answers, and a variant fails where the others fail.
pub overloads_agree :
    {S : Type 0} (m : Mpi) (sort : List Entry → List Entry) (size : S → ℕ)
    (merge : ℕ → View → S → S) (l : Layout) (stride : ℕ) (r : Request) (caller : ℕ) (a : Answers)
    (recv : S) (sz_recv bytes : List ℕ) (s : Vcluster)
    → let unpack = process_receive_buffer size merge l stride in
      let sync = ssend_recv_p m sort unpack r a recv bytes s in
      let wait = ssend_recv_p_wait m sort unpack caller a recv sz_recv bytes s in
      (ssend_recv_p_sizes m sort unpack r a recv s
        ≡ (sync >>= λ x. some (x.0, record x.1 { sz_byte = none })))
      × (ssend_recv_p_op m sort unpack r a recv s
          ≡ (sync >>= λ x. some (x.0, record x.1 { sz = none; sz_byte = none })))
      × (ssend_recv_p_sizes_wait m sort unpack caller a recv sz_recv s
          ≡ (wait >>= λ x. some (x.0, record x.1 { sz_byte = none })))
      × (ssend_recv_p_op_wait m sort unpack caller a recv s
          ≡ (wait >>= λ x. some (x.0, record x.1 { sz = none; sz_byte = none })))
overloads_agree {S} m sort size merge l stride r caller a recv sz_recv bytes s =
    let unpack = process_receive_buffer size merge l stride in
    let u : Unpacking S = record { recv = recv; sz = some r.sz_recv; sz_byte = some bytes } in
    let v : Unpacking S = record { recv = recv; sz = some sz_recv; sz_byte = some bytes } in
    let drops = λ (b : Bool). process_receive_buffer-dropping size merge b l stride in
    (
      ssend_recv-dropping m sort unpack false (drops false) r a u s,
      ssend_recv-dropping m sort unpack true (drops true) r a u s,
      ssend_recv_wait-dropping m sort unpack false (drops false) caller a v s,
      ssend_recv_wait-dropping m sort unpack true (drops true) caller a v s,
    )
