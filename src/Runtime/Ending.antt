-- ===== src/Runtime/Ending.antt =====
-- Programs from their start to their end (VCluster/VCluster.cpp, and the constructor and destructor of
-- VCluster/VCluster_base.hpp).
use openfpm_vcluster.Prelude.{
  suc, ◌+◌, ◌-◌, ◌%◌, ◌^◌, ◌<◌, ◌≡◌, refl, ap, ◌∙◌, Bool, true, false, ◌&&◌, ◌==◌, some, List, [],
  ◌∷◌, length, ◌>>=◌, arith,
}
use openfpm_vcluster.Runtime.{
  object, dangling, construct, destroy, init_global, delete_pointer, delete_global,
  openfpm_init_vcl, openfpm_init, openfpm_finalize,
}
use openfpm_vcluster.Runtime.Lifecycle.{init, finalize, perform}
use openfpm_vcluster.Runtime.Programs.{
  Program, Action, library, enter, leave, act, act_each, program,
}

-- Both global instances, and the program's own `o`, exist.
abbrev using : Bool → List Bool → Program
using world o = record {
  runtime = record {
    heap = object world;
    cuda = object world;
    n_vcluster = length o + 2;
    ofp_initialized = true;
    mpi_initialized = true;
    mpi_finalized = false;
  };
  own = o;
}

-- The global instances are deleted; MPI is finalized if `over`.
abbrev pub after : Bool → List Bool → Program
after over o = record {
  runtime = record {
    heap = dangling;
    cuda = dangling;
    n_vcluster = length o;
    ofp_initialized = false;
    mpi_initialized = true;
    mpi_finalized = over;
  };
  own = o;
}

-- Before `rest`: openfpm_init for each of `ws`, and an instance of the program's own on each of `ws`, and
-- the scopes of all of `o` left
abbrev pub inits : List Bool → List Action → List Action
inits [] rest = rest
inits (w ∷ ws) rest = library (init w) ∷ inits ws rest

abbrev pub enters : List Bool → List Action → List Action
enters [] rest = rest
enters (w ∷ ws) rest = enter w ∷ enters ws rest

abbrev pub leaves : List Bool → List Action
leaves [] = []
leaves (w ∷ ws) = leave ∷ leaves ws

-- The instances in the order in which they are left, the last first
abbrev pub stacked : List Bool → List Bool → List Bool
stacked [] o = o
stacked (w ∷ ws) o = stacked ws (w ∷ o)

-- The communicator of the instance that is destroyed last
abbrev pub last_left : Bool → List Bool → Bool
last_left world [] = world
last_left world (w ∷ ws) = last_left w ws

init-using : (world mpi : Bool) → act (library (init world)) (program mpi) ≡ some (using world [])
unfolding act perform openfpm_init openfpm_init_vcl init_global construct
init-using world mpi = refl

init-again :
    (world w : Bool) (o : List Bool) → act (library (init w)) (using world o) ≡ some (using world o)
unfolding act perform openfpm_init
init-again world w o = refl

enter-using :
    (world w : Bool) (o : List Bool) → act (enter w) (using world o) ≡ some (using world (w ∷ o))
unfolding act construct
enter-using world w o =
    let e : length o + 2 + 1 ≡ suc (length o) + 2 = omega arith in
    ap
      (λ n. some (record (using world (w ∷ o)) {
        runtime = record (using world (w ∷ o)).runtime { n_vcluster = n };
      }))
      e

finalize-after :
    (world : Bool) (o : List Bool)
    → length o + 2 < 2 ^ 64
    → act (library finalize) (using world o) ≡ some (after (length o == 0 && world) o)
unfolding act perform openfpm_finalize delete_global delete_pointer destroy
finalize-after world o b =
    let first : (length o + 2 + 2 ^ 64 - 1) % 2 ^ 64 ≡ length o + 1 = omega (arith, b) in
    let second : (length o + 1 + 2 ^ 64 - 1) % 2 ^ 64 ≡ length o = omega (arith, b) in
    let some_left : (length o + 1 == 0) ≡ false = ground arith in rw (first, second, some_left) refl

leave-after :
    (w : Bool) (o : List Bool)
    → length o + 1 < 2 ^ 64
    → act leave (after false (w ∷ o)) ≡ some (after (length o == 0 && w) o)
unfolding act destroy
leave-after w o b =
    let left : (suc (length o) + 2 ^ 64 - 1) % 2 ^ 64 ≡ length o = omega (arith, b) in rw left refl

leaves-after :
    (world : Bool) (o : List Bool)
    → length o + 2 < 2 ^ 64
    → act_each (leaves o) (after (length o == 0 && world) o) ≡ some (after (last_left world o) [])
unfolding act_each
leaves-after world [] b = refl
leaves-after world (w ∷ o) b =
    let more : (suc (length o) == 0) ≡ false = ground arith in
    ap (λ x. act_each (leaves (w ∷ o)) (after (x && world) (w ∷ o))) more
    ∙ ap (λ r. r >>= λ q. act_each (leaves o) q) (leave-after w o (omega (arith, b)))
    ∙ leaves-after w o (omega (arith, b))

inits-using :
    (world : Bool) (ws : List Bool) (rest : List Action)
    → act_each (inits ws rest) (using world []) ≡ act_each rest (using world [])
unfolding act_each
inits-using world [] rest = refl
inits-using world (w ∷ ws) rest =
    ap (λ r. r >>= λ q. act_each (inits ws rest) q) (init-again world w [])
    ∙ inits-using world ws rest

enters-using :
    (world : Bool) (ws o : List Bool) (rest : List Action)
    → act_each (enters ws rest) (using world o) ≡ act_each rest (using world (stacked ws o))
unfolding act_each
enters-using world [] o rest = refl
enters-using world (w ∷ ws) o rest =
    ap (λ r. r >>= λ q. act_each (enters ws rest) q) (enter-using world w o)
    ∙ enters-using world ws (w ∷ o) rest

-- A whole program: it calls openfpm_init, once or more, then makes instances of its own (fewer than
-- 2 ^ 64 - 2), calls openfpm_finalize while they exist, and leaves their scopes, the last first; the
-- instances and the calls may name any communicators, and MPI may have been initialized before. All
-- of it returns; at the end no instance is counted, the global pointers are those of deleted
-- objects, and MPI is finalized exactly if the instance that was destroyed last was made for
-- MPI_COMM_WORLD: the first that the program made itself, or, if it made none, the global ones, which
-- are on the communicator that the first call of openfpm_init named.
pub program-ends :
    (world mpi : Bool) (again ws : List Bool)
    → length (stacked ws []) + 2 < 2 ^ 64
    → act_each
        (library (init world) ∷ inits again (enters ws (library finalize ∷ leaves (stacked ws []))))
        (program mpi)
      ≡ some (after (last_left world (stacked ws [])) [])
unfolding act_each
program-ends world mpi again ws b =
    let o = stacked ws [] in
    let rest = library finalize ∷ leaves o in
    ap (λ r. r >>= λ q. act_each (inits again (enters ws rest)) q) (init-using world mpi)
    ∙ inits-using world again (enters ws rest)
    ∙ enters-using world ws [] rest
    ∙ ap (λ r. r >>= λ q. act_each (leaves o) q) (finalize-after world o b)
    ∙ leaves-after world o b
