-- ===== src/Runtime.antt =====
-- The global Vcluster objects, and the initialization and finalization of the library
-- (VCluster/VCluster.hpp, VCluster/VCluster.cpp, and the constructor and destructor of
-- VCluster/VCluster_base.hpp).
pub mod Lifecycle
pub mod Instances
pub mod Programs
pub mod Ending
mod Examples
use openfpm_vcluster.Prelude.{
  ℕ, ◌+◌, ◌-◌, ◌%◌, ◌^◌, Bool, true, false, ◌&&◌, ◌||◌, Option, none, some, ◌==◌, if◌then◌else◌,
  ◌>>=◌,
}

-- A global pointer: NULL, an object (whether it was made for MPI_COMM_WORLD), or the address of one
-- that was deleted
pub data Pointer : Type 0 where
  null : Pointer
  object : Bool → Pointer
  dangling : Pointer

-- The global variables, and what MPI_Initialized and MPI_Finalized answer
pub record Runtime : Type 0 where
  pub heap : Pointer
  pub cuda : Pointer
  pub n_vcluster : ℕ
  pub ofp_initialized : Bool
  pub mpi_initialized : Bool
  pub mpi_finalized : Bool

abbrev pub is_null : Pointer → Bool
is_null null = true
is_null _ = false

-- The constructor of Vcluster_base: MPI is not to be called once it is finalized, which is `none`.
unfoldable pub construct : Runtime → Option Runtime
construct s =
    if s.mpi_finalized
    then none
    else some (record s { n_vcluster = s.n_vcluster + 1; mpi_initialized = true })

-- The destructor, of an object that was made for MPI_COMM_WORLD if `world`
unfoldable pub destroy : Bool → Runtime → Runtime
destroy world s =
    let n = (s.n_vcluster + 2 ^ 64 - 1) % 2 ^ 64 in
    record s { n_vcluster = n; mpi_finalized = s.mpi_finalized || (n == 0 && world) }

-- init_global_v_cluster_private
unfoldable pub init_global : Bool → Runtime → Option Runtime
unfolding construct
init_global world s =
    let heap : Option Runtime = construct s >>= λ t. some (record t { heap = object world }) in
    (if is_null s.heap then heap else some s) >>= λ t.
    let cuda : Option Runtime = construct t >>= λ u. some (record u { cuda = object world }) in
    if is_null t.cuda then cuda else some t

-- `delete` of a pointer: of NULL it does nothing; of an address twice it is undefined.
unfoldable pub delete_pointer : Pointer → Runtime → Option Runtime
unfolding destroy
delete_pointer null s = some s
delete_pointer (object world) s = some (destroy world s)
delete_pointer dangling s = none

abbrev pub deleted : Pointer → Pointer
deleted null = null
deleted _ = dangling

-- delete_global_v_cluster_private
unfoldable pub delete_global : Runtime → Option Runtime
unfolding delete_pointer
delete_global s = delete_pointer s.heap s >>= λ t.
    delete_pointer t.cuda (record t { heap = deleted t.heap }) >>= λ u.
    some (record u { cuda = deleted u.cuda })

unfoldable pub openfpm_init_vcl : Bool → Runtime → Option Runtime
unfolding init_global
openfpm_init_vcl world s = init_global world s >>= λ t. some (record t { ofp_initialized = true })

unfoldable pub openfpm_init : Bool → Runtime → Option Runtime
unfolding openfpm_init_vcl
openfpm_init world s = if s.ofp_initialized then some s else openfpm_init_vcl world s

unfoldable pub openfpm_finalize : Runtime → Option Runtime
unfolding delete_global
openfpm_finalize s = delete_global s >>= λ t. some (record t { ofp_initialized = false })

-- create_vcluster, for HeapMemory: the object that it returns a reference to; `none` is a reference to
-- no object. Where the pointer is NULL it complains first.
unfoldable pub create_vcluster : Runtime → Option Bool
create_vcluster s = elim s.heap [ null ↦ none | object world ↦ some world | dangling ↦ none ]
