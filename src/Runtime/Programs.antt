-- ===== src/Runtime/Programs.antt =====
-- Programs that have instances of Vcluster of their own beside the global ones
-- (VCluster/VCluster.cpp, and the constructor and destructor of VCluster/VCluster_base.hpp).
use openfpm_vcluster.Prelude.{
  ℕ, ◌+◌, ◌<◌, ◌≡◌, refl, ap, if◌then◌else◌, Bool, true, false, Option, none, some, List, [], ◌∷◌,
  length, ◌>>=◌, OnSome, on_some, >>=-OnSome, arith, ◌^◌,
}
use openfpm_vcluster.Runtime.{
  Runtime, construct, destroy, init_global, openfpm_init_vcl, openfpm_init, openfpm_finalize,
}
use openfpm_vcluster.Runtime.Lifecycle.{RuntimeCall, init, finalize, perform, started}
use openfpm_vcluster.Runtime.Instances.{
  alive, CountsAll, Counts-cong, alive_few, construct-Counts, destroy-Counts, init_global-CountsAll,
  delete_global-CountsAll,
}

-- A program with instances of its own on its stack, each made for MPI_COMM_WORLD or not
pub record Program : Type 0 where
  pub runtime : Runtime
  pub own : List Bool

pub data Action : Type 0 where
  library : RuntimeCall → Action
  enter : Bool → Action
  leave : Action

-- What the program does: it calls the library, makes an instance, or leaves the scope of the one it
-- made last.
unfoldable pub act : Action → Program → Option Program
unfolding perform
act (library c) p = perform c p.runtime >>= λ t. some (record p { runtime = t })
act (enter world) p =
    construct p.runtime >>= λ t. some (record { runtime = t; own = world ∷ p.own })
act leave p = elim p.own [
  | [] ↦ none
  | world ∷ ws ↦ some (record { runtime = destroy world p.runtime; own = ws })
]

unfoldable pub act_each : List Action → Program → Option Program
unfolding act
act_each [] p = some p
act_each (x ∷ xs) p = act x p >>= λ q. act_each xs q

-- A program at its start
abbrev pub program : Bool → Program
program mpi = record { runtime = started mpi; own = [] }

-- The global instances, and the program's own
abbrev pub instances : Program → ℕ
instances p = alive p.runtime.heap + (alive p.runtime.cuda + length p.own)

IsCounted : Program → Type 0
IsCounted p = CountsAll (length p.own) p.runtime

-- Whichever branch is taken
either :
    {A : Type 0} (P : A → Type 0) (b : Bool) (x y : Option A)
    → OnSome P x
    → OnSome P y
    → OnSome P (if b then x else y)
either P true x y h k = h
either P false x y h k = k

init-CountsAll :
    (k : ℕ) (world : Bool) (s : Runtime)
    → CountsAll k s
    → OnSome (CountsAll k) (openfpm_init world s)
unfolding openfpm_init openfpm_init_vcl
init-CountsAll k world s h = either (CountsAll k) s.ofp_initialized (some s) _ h (
    >>=-OnSome (CountsAll k) (init_global world s) _ λ t q.
      let c : CountsAll k t = on_some (CountsAll k) _ q (init_global-CountsAll k world s h) in
      let r : CountsAll k (record t { ofp_initialized = true }) = record {
        count = c.count;
        ends = c.ends;
      } in
      r)

finalize-CountsAll :
    (k : ℕ) (s : Runtime)
    → k + 3 < 2 ^ 64
    → CountsAll k s
    → OnSome (CountsAll k) (openfpm_finalize s)
unfolding openfpm_finalize
finalize-CountsAll k s b h = >>=-OnSome (CountsAll k) _ _ λ t q.
    let c : CountsAll k t = on_some (CountsAll k) _ q (delete_global-CountsAll k s b h) in
    let r : CountsAll k (record t { ofp_initialized = false }) = record {
      count = c.count;
      ends = c.ends;
    } in
    r

perform-CountsAll :
    (c : RuntimeCall) (k : ℕ) (s : Runtime)
    → k + 3 < 2 ^ 64
    → CountsAll k s
    → OnSome (CountsAll k) (perform c s)
unfolding perform
perform-CountsAll (init world) k s b h = init-CountsAll k world s h
perform-CountsAll finalize k s b h = finalize-CountsAll k s b h

-- What holds after an action of a program with `n` instances of its own
Moved : ℕ → Program → Type 0
Moved n q = IsCounted q × (length q.own < n + 2)

enter-Moved :
    (world : Bool) (s : Runtime) (o : List Bool)
    → CountsAll (length o) s
    → OnSome (Moved (length o)) (act (enter world) (record { runtime = s; own = o }))
unfolding act IsCounted Moved
enter-Moved world s o h = >>=-OnSome (Moved (length o)) (construct s) _ λ t q.
    let (c, same) = on_some _ _ q (construct-Counts _ s h) in
    let total : alive s.heap + (alive s.cuda + length o) + 1
        ≡ alive t.heap + (alive t.cuda + length (world ∷ o)) =
      omega (arith, ap alive same.0, ap alive same.1) in
    (Counts-cong _ _ t total c, omega arith)

leave-Moved :
    (s : Runtime) (o : List Bool)
    → length o + 3 < 2 ^ 64
    → CountsAll (length o) s
    → OnSome (Moved (length o)) (act leave (record { runtime = s; own = o }))
unfolding act IsCounted Moved
leave-Moved s [] b h = tt
leave-Moved s (world ∷ ws) b h =
    let n = alive s.heap + (alive s.cuda + length ws) in
    let few : n + 1 < 2 ^ 64 = omega (arith, b, alive_few s.heap, alive_few s.cuda) in
    let (c, same) = destroy-Counts n world s few (Counts-cong _ (n + 1) s (omega arith) h) in
    let total : n ≡ alive (destroy world s).heap + (alive (destroy world s).cuda + length ws) =
      omega (arith, ap alive same.0, ap alive same.1) in
    (Counts-cong _ _ (destroy world s) total c, omega arith)

act-Moved :
    (x : Action) (p : Program)
    → length p.own + 3 < 2 ^ 64
    → IsCounted p
    → OnSome (Moved (length p.own)) (act x p)
unfolding IsCounted Moved act
act-Moved (library c) p b h =
    >>=-OnSome (Moved (length p.own)) (perform c p.runtime) _
      λ t q. (on_some _ _ q (perform-CountsAll c (length p.own) p.runtime b h), omega arith)
act-Moved (enter world) p b h = enter-Moved world p.runtime p.own h
act-Moved leave p b h = leave-Moved p.runtime p.own b h

act_each-IsCounted :
    (xs : List Action) (p : Program)
    → length p.own + length xs + 3 < 2 ^ 64
    → IsCounted p
    → OnSome IsCounted (act_each xs p)
unfolding act_each Moved
act_each-IsCounted [] p b h = h
act_each-IsCounted (x ∷ xs) p b h = >>=-OnSome IsCounted (act x p) _ λ q e.
    let (c, l) = on_some (Moved (length p.own)) _ e (act-Moved x p (omega (arith, b)) h) in
    act_each-IsCounted xs q (omega (arith, b, l)) c

-- A program that calls openfpm_init and openfpm_finalize and makes and destroys instances of its own,
-- on any communicators and in any order, fewer than 2 ^ 64 - 3 times, from its start, where MPI was
-- initialized by it or not, and that neither deletes an instance twice nor makes one after MPI was
-- finalized: n_vcluster is at any time the number of the instances that exist, global ones and its
-- own, and MPI is never finalized while one of them exists.
pub act_each-counted :
    (mpi : Bool) (xs : List Action) (p : Program)
    → length xs + 3 < 2 ^ 64
    → act_each xs (program mpi) ≡ some p
    → (p.runtime.n_vcluster ≡ instances p) × (p.runtime.mpi_finalized ≡ true → instances p ≡ 0)
unfolding IsCounted
act_each-counted mpi xs p b e =
    let start : IsCounted (program mpi) = record { count = refl; ends = λ f. refl } in
    let c = on_some IsCounted _ e (act_each-IsCounted xs (program mpi) (omega (arith, b)) start) in
    (c.count, c.ends)
