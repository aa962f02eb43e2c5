-- ===== src/Wire.antt =====
-- MPI_wrapper/*.hpp, and the size arithmetic of queue_all_sends and progressCommunication in
-- VCluster/VCluster_base.hpp: which MPI datatype and element count a buffer of a given size is
-- handed over with. MPI itself is the parameter `Mpi`.
pub mod Sizes
pub mod Vectors
pub mod Platform
mod Examples
use openfpm_vcluster.Prelude.{
  ℕ, ◌+◌, ◌*◌, ◌/◌, ◌%◌, ◌^◌, ◌<◌, ◌≡◌, ◌≢◌, Bool, true, false, Option, none, some, ltb, leb,
  if◌then◌else◌,
}

-- The C++ types with a specialised wrapper; `other n` is any other type, of `n` bytes.
pub data CType : Type 0 where
  int_c uint_c short_c ushort_c char_c uchar_c size_c long_c float_c double_c : CType
  other : ℕ → CType

-- The predefined MPI datatypes that the wrappers name.
pub data Datatype : Type 0 where
  mpi_byte mpi_int mpi_unsigned mpi_short mpi_unsigned_short mpi_char : Datatype
  mpi_unsigned_char mpi_unsigned_long mpi_long mpi_float mpi_double : Datatype

-- The count argument of an MPI call and its datatype. The count is an `int`: its 32-bit pattern.
pub record Transfer : Type 0 where
  pub count : ℕ
  pub datatype : Datatype

abbrev pub int_max : ℕ
int_max = 2147483647

abbrev pub to_int : ℕ → ℕ
to_int n = n % 2 ^ 32

abbrev pub transfer : ℕ → Datatype → Transfer
transfer n d = record { count = to_int n; datatype = d }

-- What the code uses of MPI: the size of a datatype, and MPI_Get_count, where `none` is
-- MPI_UNDEFINED.
pub record Mpi : Type 0 where
  pub type_size : Datatype → ℕ
  pub get_count : Datatype → ℕ → Option ℕ

-- The MPI standard on these: MPI_Get_count gives the number of whole elements of a message, where
-- it is whole and fits an `int`, and MPI_UNDEFINED where the message is not whole elements.
pub record IsStandard (m : Mpi) : Type 0 where
  pub byte_size : m.type_size mpi_byte ≡ 1
  pub double_size : m.type_size mpi_double ≡ 8
  pub count_whole :
      (d : Datatype) (k : ℕ) → k < 2147483648 → m.get_count d (k * m.type_size d) ≡ some k
  pub count_partial : (d : Datatype) (n : ℕ) → n % m.type_size d ≢ 0 → m.get_count d n ≡ none

-- The bytes that a transfer moves.
abbrev pub transfer_bytes : Mpi → Transfer → ℕ
transfer_bytes m t = t.count * m.type_size t.datatype

-- The datatype that the wrappers' specialisations pair with a C++ type, as the MPI standard does.
pub datatype_of : CType → Option Datatype
datatype_of int_c = some mpi_int
datatype_of uint_c = some mpi_unsigned
datatype_of short_c = some mpi_short
datatype_of ushort_c = some mpi_unsigned_short
datatype_of char_c = some mpi_char
datatype_of uchar_c = some mpi_unsigned_char
datatype_of size_c = some mpi_unsigned_long
datatype_of long_c = some mpi_long
datatype_of float_c = some mpi_float
datatype_of double_c = some mpi_double
datatype_of (other n) = none

-- MPI_IsendWB::send
unfoldable pub isend_buffer : ℕ → Transfer
isend_buffer sz = if leb sz int_max then transfer sz mpi_byte else transfer (sz / 2 ^ 3) mpi_double

-- MPI_IrecvWB::recv
unfoldable pub irecv_buffer : ℕ → Transfer
irecv_buffer sz = if ltb sz int_max then transfer sz mpi_byte else transfer (sz / 2 ^ 8) mpi_double

-- MPI_IsendW<T>::send of a vector of `n` elements
unfoldable pub isend_vector : CType → ℕ → Transfer
isend_vector int_c n = transfer n mpi_int
isend_vector uint_c n = transfer n mpi_unsigned
isend_vector short_c n = transfer n mpi_short
isend_vector ushort_c n = transfer n mpi_unsigned_short
isend_vector char_c n = transfer n mpi_char
isend_vector uchar_c n = transfer n mpi_unsigned_char
isend_vector size_c n = transfer n mpi_unsigned_long
isend_vector long_c n = transfer n mpi_long
isend_vector float_c n = transfer n mpi_float
isend_vector double_c n = transfer n mpi_double
isend_vector (other s) n =
    if leb (n * s) int_max then transfer (n * s) mpi_byte else transfer (n * s / 2 ^ 3) mpi_double

-- MPI_IrecvW<T>::recv into a vector of `n` elements
unfoldable pub irecv_vector : CType → ℕ → Transfer
irecv_vector int_c n = transfer n mpi_int
irecv_vector uint_c n = transfer n mpi_unsigned
irecv_vector short_c n = transfer n mpi_short
irecv_vector ushort_c n = transfer n mpi_unsigned_short
irecv_vector char_c n = transfer n mpi_char
irecv_vector uchar_c n = transfer n mpi_unsigned_char
irecv_vector size_c n = transfer n mpi_unsigned_long
irecv_vector long_c n = transfer n mpi_long
irecv_vector float_c n = transfer n mpi_float
irecv_vector double_c n = transfer n mpi_double
irecv_vector (other s) n =
    if ltb (n * s) int_max then transfer (n * s) mpi_byte else transfer (n * s / 2 ^ 8) mpi_double

-- MPI_IBcastW<T>::bcast of a vector of `n` elements
unfoldable pub ibcast_vector : CType → ℕ → Transfer
ibcast_vector int_c n = transfer n mpi_int
ibcast_vector uint_c n = transfer n mpi_unsigned
ibcast_vector short_c n = transfer n mpi_short
ibcast_vector ushort_c n = transfer n mpi_unsigned_short
ibcast_vector char_c n = transfer n mpi_char
ibcast_vector uchar_c n = transfer n mpi_unsigned_char
ibcast_vector size_c n = transfer n mpi_unsigned_long
ibcast_vector long_c n = transfer n mpi_long
ibcast_vector float_c n = transfer n mpi_float
ibcast_vector double_c n = transfer n mpi_double
ibcast_vector (other s) n = transfer (n * s) mpi_byte

-- MPI_IAllGatherW<T>::gather of `n` elements from each process
unfoldable pub igather : CType → ℕ → Transfer
igather int_c n = transfer n mpi_int
igather uint_c n = transfer n mpi_unsigned
igather short_c n = transfer n mpi_short
igather ushort_c n = transfer n mpi_unsigned_short
igather char_c n = transfer n mpi_char
igather uchar_c n = transfer n mpi_unsigned_char
igather size_c n = transfer n mpi_unsigned_long
igather long_c n = transfer n mpi_long
igather float_c n = transfer n mpi_float
igather double_c n = transfer n mpi_double
igather (other s) n = transfer (s * n) mpi_byte

-- MPI_IallreduceW<T>::reduce of one number; `none` is the call that prints an error and does
-- nothing.
unfoldable pub ireduce : CType → Option Transfer
ireduce int_c = some (transfer 1 mpi_int)
ireduce uint_c = some (transfer 1 mpi_unsigned)
ireduce short_c = some (transfer 1 mpi_short)
ireduce ushort_c = some (transfer 1 mpi_unsigned_short)
ireduce char_c = some (transfer 1 mpi_char)
ireduce uchar_c = some (transfer 1 mpi_unsigned_char)
ireduce size_c = some (transfer 1 mpi_unsigned_long)
ireduce long_c = some (transfer 1 mpi_long)
ireduce float_c = some (transfer 1 mpi_float)
ireduce double_c = some (transfer 1 mpi_double)
ireduce (other s) = none

-- The MPI_Issend of queue_all_sends
unfoldable pub issend_buffer : ℕ → Transfer
issend_buffer sz =
    if ltb int_max sz then transfer (sz / 2 ^ 3 + 1) mpi_double else transfer sz mpi_byte

-- What progressCommunication learns of a probed message: `big_data`, and `msize`.
pub record Probed : Type 0 where
  pub big_data : Bool
  pub msize : ℕ

-- progressCommunication: MPI_Get_count as doubles, then as bytes. `none` is a message that neither
-- count describes, where the code goes on with MPI_UNDEFINED as the size.
unfoldable pub probe_size : Mpi → ℕ → Option Probed
probe_size m bytes = elim (m.get_count mpi_double bytes) [
  | some n ↦ some (record { big_data = true; msize = n * 2 ^ 3 })
  | none ↦ elim (m.get_count mpi_byte bytes) [
    | some n ↦ some (record { big_data = false; msize = n })
    | none ↦ none
  ]
]

-- The MPI_Recv that progressCommunication makes for it
unfoldable pub recv_probed : Probed → Transfer
recv_probed p =
    if p.big_data then transfer (p.msize / 2 ^ 3) mpi_double else transfer p.msize mpi_byte
