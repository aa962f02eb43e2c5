-- ===== src/Runtime/Lifecycle.antt =====
-- The library from its first initialization to its end, and after it (VCluster/VCluster.hpp and
-- VCluster/VCluster.cpp).
use openfpm_vcluster.Prelude.{
  ◌≡◌, refl, Bool, true, false, Option, none, some, ◌>>=◌, OnSome, on_some, >>=-OnSome, List, [],
  ◌∷◌,
}
use openfpm_vcluster.Runtime.{
  null, object, dangling, Runtime, construct, destroy, init_global, delete_pointer, delete_global,
  openfpm_init_vcl, openfpm_init, openfpm_finalize, create_vcluster,
}

-- The program's start, where MPI was initialized by the caller if `mpi`
abbrev pub started : Bool → Runtime
started mpi = record {
  heap = null;
  cuda = null;
  n_vcluster = 0;
  ofp_initialized = false;
  mpi_initialized = mpi;
  mpi_finalized = false;
}

abbrev pub running : Bool → Runtime
running world = record {
  heap = object world;
  cuda = object world;
  n_vcluster = 2;
  ofp_initialized = true;
  mpi_initialized = true;
  mpi_finalized = false;
}

-- After openfpm_finalize, and where openfpm_init was called again after it if `again`
abbrev pub ended : Bool → Bool → Runtime
ended world again = record {
  heap = dangling;
  cuda = dangling;
  n_vcluster = 0;
  ofp_initialized = again;
  mpi_initialized = true;
  mpi_finalized = world;
}

-- A program's calls
pub data RuntimeCall : Type 0 where
  init : Bool → RuntimeCall
  finalize : RuntimeCall

unfoldable pub perform : RuntimeCall → Runtime → Option Runtime
perform (init world) s = openfpm_init world s
perform finalize s = openfpm_finalize s

unfoldable pub perform_all : List RuntimeCall → Runtime → Option Runtime
unfolding perform
perform_all [] s = some s
perform_all (c ∷ cs) s = perform c s >>= λ t. perform_all cs t

-- The states of a program
pub data IsState : Runtime → Type 0 where
  before_init : (mpi : Bool) → IsState (started mpi)
  in_use : (world : Bool) → IsState (running world)
  after_end : (world again : Bool) → IsState (ended world again)

init-running : (world mpi : Bool) → openfpm_init world (started mpi) ≡ some (running world)
unfolding openfpm_init openfpm_init_vcl init_global construct
init-running world mpi = refl

finalize-ended : (world : Bool) → openfpm_finalize (running world) ≡ some (ended world false)
unfolding openfpm_finalize delete_global delete_pointer destroy
finalize-ended true = refl
finalize-ended false = refl

init-again : (world w : Bool) → openfpm_init w (running world) ≡ some (running world)
unfolding openfpm_init
init-again world w = refl

init-ended : (w world again : Bool) → openfpm_init w (ended world again) ≡ some (ended world true)
unfolding openfpm_init openfpm_init_vcl init_global
init-ended w world true = refl
init-ended w world false = refl

finalize-started : (mpi : Bool) → openfpm_finalize (started mpi) ≡ some (started mpi)
unfolding openfpm_finalize delete_global delete_pointer
finalize-started mpi = refl

finalize-twice : (world again : Bool) → openfpm_finalize (ended world again) ≡ none
unfolding openfpm_finalize delete_global delete_pointer
finalize-twice world again = refl

perform-IsState : (c : RuntimeCall) (s : Runtime) → IsState s → OnSome IsState (perform c s)
unfolding perform
perform-IsState (init w) s (before_init mpi) = rw (init-running w mpi) (in_use w)
perform-IsState (init w) s (in_use world) = rw (init-again world w) (in_use world)
perform-IsState (init w) s (after_end world again) =
    rw (init-ended w world again) (after_end world true)
perform-IsState finalize s (before_init mpi) = rw (finalize-started mpi) (before_init mpi)
perform-IsState finalize s (in_use world) = rw (finalize-ended world) (after_end world false)
perform-IsState finalize s (after_end world again) = rw (finalize-twice world again) tt

runs-IsState : (cs : List RuntimeCall) (s : Runtime) → IsState s → OnSome IsState (perform_all cs s)
unfolding perform_all
runs-IsState [] s h = h
runs-IsState (c ∷ cs) s h =
    >>=-OnSome IsState (perform c s) (λ t. perform_all cs t)
      λ t e. runs-IsState cs t (on_some IsState (perform c s) e (perform-IsState c s h))

-- Any calls of openfpm_init and openfpm_finalize, in any order, from the start of a program: where
-- none of them deletes an object twice, the program is before its first initialization, or both
-- objects exist and are counted, or both are deleted, none is counted, and the pointers to them
-- are left as they were; an object is never made again.
pub perform_all-IsState :
    (cs : List RuntimeCall) (mpi : Bool) (t : Runtime)
    → perform_all cs (started mpi) ≡ some t
    → IsState t
perform_all-IsState cs mpi t e =
    on_some IsState (perform_all cs (started mpi)) e
      (runs-IsState cs (started mpi) (before_init mpi))

-- After openfpm_finalize, whether or not openfpm_init was called since: openfpm_init makes no new
-- object, and still marks the library as initialized; the pointers stay those of the deleted
-- objects, create_vcluster returns a reference to one, and openfpm_finalize deletes them again.
pub init_after_end :
    (w world again : Bool)
    → (openfpm_init w (ended world again) ≡ some (ended world true))
      × (create_vcluster (ended world true) ≡ none)
      × (openfpm_finalize (ended world again) ≡ none)
unfolding create_vcluster
init_after_end w world again = (init-ended w world again, refl, finalize-twice world again)
