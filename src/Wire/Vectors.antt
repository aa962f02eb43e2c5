-- ===== src/Wire/Vectors.antt =====
-- The typed wrappers of MPI_wrapper/*.hpp: every specialisation names the datatype of its C++ type.
use openfpm_vcluster.Prelude.{
  ℕ, ◌*◌, ◌%◌, ◌≤◌, ◌<◌, ◌≡◌, refl, some, arith, lt→ltb, le→leb, subst, ap,
}
use openfpm_vcluster.Wire.{
  CType, int_c, other, Datatype, mpi_byte, int_max, transfer, Mpi, IsStandard, transfer_bytes,
  datatype_of, isend_vector, irecv_vector, ibcast_vector, igather, ireduce,
}
use native.Mathlib.Nat.{mul_comm}
use mathlib.Core.Option

-- The sizes of the C++ types on the platform: a predefined MPI datatype has the size of its type.
pub record IsAbi (m : Mpi) (sizeof : CType → ℕ) : Type 0 where
  pub named : (c : CType) (d : Datatype) → datatype_of c ≡ some d → m.type_size d ≡ sizeof c
  pub plain : (s : ℕ) → sizeof (other s) ≡ s
  pub positive : (c : CType) (d : Datatype) → datatype_of c ≡ some d → 0 < sizeof c

-- What each wrapper moves for `n` elements of `c`.
pub record MovesAll (m : Mpi) (sizeof : CType → ℕ) (c : CType) (n : ℕ) : Type 0 where
  pub sent : transfer_bytes m (isend_vector c n) ≡ n * sizeof c
  pub received : transfer_bytes m (irecv_vector c n) ≡ n * sizeof c
  pub broadcast : transfer_bytes m (ibcast_vector c n) ≡ n * sizeof c
  pub gathered : transfer_bytes m (igather c n) ≡ n * sizeof c
  pub reduced :
      Option.map (transfer_bytes m) (ireduce c) ≡ Option.map (λ _. sizeof c) (datatype_of c)

module _ (m : Mpi) (std : IsStandard m) (sizeof : CType → ℕ) (abi : IsAbi m sizeof) where
  le-mul : (n k : ℕ) → 0 < k → n ≤ n * k
  le-mul n k h = grind arith

  small_count : (n k : ℕ) → 0 < k → n * k < int_max → n % 4294967296 ≡ n
  small_count n k h b = omega (arith, le-mul n k h)

  named_bytes :
      (c : CType) (d : Datatype) (n : ℕ)
      → datatype_of c ≡ some d
      → n * sizeof c < int_max
      → transfer_bytes m (transfer n d) ≡ n * sizeof c
  named_bytes c d n e h =
      rw (abi.named c d e)
        (ap (λ (t : ℕ). t * sizeof c) (small_count n (sizeof c) (abi.positive c d e) h))

  plain_bytes : (b : ℕ) → b < int_max → transfer_bytes m (transfer b mpi_byte) ≡ b
  plain_bytes b h = rw std.byte_size (omega arith)

  isend_named :
      (c : CType) (d : Datatype) (n : ℕ) → datatype_of c ≡ some d → isend_vector c n ≡ transfer n d
  unfolding isend_vector datatype_of
  isend_named (other s) d n e = cc
  isend_named int_c d n e = ground arith
  isend_named _ d n e = ground arith

  irecv_named :
      (c : CType) (d : Datatype) (n : ℕ) → datatype_of c ≡ some d → irecv_vector c n ≡ transfer n d
  unfolding irecv_vector datatype_of
  irecv_named (other s) d n e = cc
  irecv_named int_c d n e = ground arith
  irecv_named _ d n e = ground arith

  ibcast_named :
      (c : CType) (d : Datatype) (n : ℕ) → datatype_of c ≡ some d → ibcast_vector c n ≡ transfer n d
  unfolding ibcast_vector datatype_of
  ibcast_named (other s) d n e = cc
  ibcast_named int_c d n e = ground arith
  ibcast_named _ d n e = ground arith

  igather_named :
      (c : CType) (d : Datatype) (n : ℕ) → datatype_of c ≡ some d → igather c n ≡ transfer n d
  unfolding igather datatype_of
  igather_named (other s) d n e = cc
  igather_named int_c d n e = ground arith
  igather_named _ d n e = ground arith

  ireduce_named : (c : CType) → ireduce c ≡ Option.map (λ d. transfer 1 d) (datatype_of c)
  unfolding ireduce datatype_of
  ireduce_named (other s) = refl
  ireduce_named int_c = refl
  ireduce_named _ = refl

  ireduce_bytes :
      (c : CType) (d : Datatype)
      → datatype_of c ≡ some d
      → Option.map (transfer_bytes m) (ireduce c) ≡ Option.map (λ _. sizeof c) (datatype_of c)
  ireduce_bytes c d e =
      rw (ireduce_named c, e, Option.map) (ap some (rw (abi.named c d e) (omega arith)))

  named_MovesAll :
      (c : CType) (d : Datatype) (n : ℕ)
      → datatype_of c ≡ some d
      → n * sizeof c < int_max
      → MovesAll m sizeof c n
  named_MovesAll c d n e h = record {
    sent = rw (isend_named c d n e) (named_bytes c d n e h);
    received = rw (irecv_named c d n e) (named_bytes c d n e h);
    broadcast = rw (ibcast_named c d n e) (named_bytes c d n e h);
    gathered = rw (igather_named c d n e) (named_bytes c d n e h);
    reduced = ireduce_bytes c d e;
  }

  other_MovesAll : (s n : ℕ) → n * s < int_max → MovesAll m (sizeof) (other s) n
  unfolding isend_vector irecv_vector ibcast_vector igather ireduce datatype_of
  other_MovesAll s n h = record {
    sent = rw (le→leb (n * s) int_max (omega arith), abi.plain s) (plain_bytes (n * s) h);
    received = rw (lt→ltb (n * s) int_max h, abi.plain s) (plain_bytes (n * s) h);
    broadcast = rw (abi.plain s) (plain_bytes (n * s) h);
    gathered = rw (mul_comm s n, abi.plain s) (plain_bytes (n * s) h);
    reduced = refl;
  }

  -- For every C++ type and every vector of fewer than 2147483647 bytes, the send, receive,
  -- broadcast and gather wrappers all move exactly the vector's bytes, and the reduction, where the
  -- type has one, moves one element.
  pub wrappers-MovesAll : (c : CType) (n : ℕ) → n * sizeof c < int_max → MovesAll m sizeof c n
  unfolding datatype_of
  wrappers-MovesAll (other s) n h =
      other_MovesAll s n (subst (λ k. n * k < int_max) (abi.plain s) h)
  wrappers-MovesAll int_c n h = named_MovesAll _ _ n refl h
  wrappers-MovesAll _ n h = named_MovesAll _ _ n refl h
