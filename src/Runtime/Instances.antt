-- ===== src/Runtime/Instances.antt =====
-- The count of the instances of Vcluster, and the end of MPI (the constructor and destructor of
-- VCluster/VCluster_base.hpp, with the global objects of VCluster/VCluster.cpp).
use openfpm_vcluster.Prelude.{
  ℕ, ◌+◌, ◌<◌, ◌≡◌, refl, sym, ap, ◌∙◌, subst, if◌then◌else◌, Bool, true, false, some, ◌>>=◌,
  OnSome, on_some, >>=-OnSome, Bool-cases, inl, inr, arith, ◌%◌, ◌-◌, ◌^◌,
}
use openfpm_vcluster.Runtime.{
  Pointer, null, object, dangling, is_null, Runtime, construct, destroy, init_global,
  delete_pointer, deleted, delete_global,
}

abbrev pub alive : Pointer → ℕ
alive (object world) = 1
alive _ = 0

-- `n` instances exist: they are counted, and MPI is not finalized while there is one.
pub record Counts (n : ℕ) (s : Runtime) : Type 0 where
  pub count : s.n_vcluster ≡ n
  pub ends : s.mpi_finalized ≡ true → n ≡ 0

-- The same global pointers
abbrev SamePointers : Runtime → Runtime → Type 0
SamePointers s t = (t.heap ≡ s.heap) × (t.cuda ≡ s.cuda)

pub construct-Counts :
    (n : ℕ) (s : Runtime)
    → Counts n s
    → OnSome (λ t. Counts (n + 1) t × SamePointers s t) (construct s)
unfolding construct
construct-Counts n s h = elim (Bool-cases s.mpi_finalized) [
  | inl e ↦ rw e tt
  | inr e ↦
      rw e
        (record { count = ap (λ k. k + 1) h.count; ends = λ f. absurd (different f) }, (refl, refl))
]
  where
    different : false ≡ true → ⊥
    different e = grind arith

pub destroy-Counts :
    (n : ℕ) (world : Bool) (s : Runtime)
    → n + 1 < 2 ^ 64
    → Counts (n + 1) s
    → Counts n (destroy world s) × SamePointers s (destroy world s)
unfolding destroy
destroy-Counts n world s b h =
    let left : (s.n_vcluster + 2 ^ 64 - 1) % 2 ^ 64 ≡ n = omega (arith, h.count, b) in
    (
      record {
        count = left;
        ends = λ f. elim (Bool-cases s.mpi_finalized) [
          | inl e ↦ absurd (omega (arith, h.ends e))
          | inr e ↦ ground (arith, f, e, left)
        ];
      },
      (refl, refl),
    )

-- The count, where it is given otherwise
pub Counts-cong : (n k : ℕ) (s : Runtime) → n ≡ k → Counts n s → Counts k s
Counts-cong n k s e h = subst (λ i. Counts i s) e h

delete_pointer-Counts :
    (n : ℕ) (q : Pointer) (s : Runtime)
    → n + 1 < 2 ^ 64
    → Counts (alive q + n) s
    → OnSome (λ t. Counts n t × SamePointers s t) (delete_pointer q s)
unfolding delete_pointer
delete_pointer-Counts n null s b h = (Counts-cong (0 + n) n s (omega arith) h, (refl, refl))
delete_pointer-Counts n (object world) s b h =
    destroy-Counts n world s b (Counts-cong (1 + n) (n + 1) s (omega arith) h)
delete_pointer-Counts n dangling s b h = tt

deleted-alive : (q : Pointer) → alive (deleted q) ≡ 0
deleted-alive null = refl
deleted-alive (object world) = refl
deleted-alive dangling = refl

pub alive_few : (q : Pointer) → alive q < 2
alive_few null = omega arith
alive_few (object world) = omega arith
alive_few dangling = omega arith

null-alive : (q : Pointer) → is_null q ≡ true → alive q ≡ 0
null-alive null e = refl
null-alive (object world) e = grind arith
null-alive dangling e = refl

-- The global instances that exist, and `k` others
abbrev pub CountsAll : ℕ → Runtime → Type 0
CountsAll k s = Counts (alive s.heap + (alive s.cuda + k)) s

init_heap :
    (k : ℕ) (world : Bool) (s : Runtime)
    → is_null s.heap ≡ true
    → CountsAll k s
    → OnSome (CountsAll k) (construct s >>= λ t. some (record t { heap = object world }))
init_heap k world s e h = >>=-OnSome (CountsAll k) (construct s) _ λ t q.
    let (c, same) = on_some _ _ q (construct-Counts _ s h) in
    let none_yet = null-alive s.heap e in
    let total : alive s.heap + (alive s.cuda + k) + 1 ≡ 1 + (alive t.cuda + k) =
      omega (arith, none_yet, ap alive same.1) in
    let r : CountsAll k (record t { heap = object world }) = record {
      count = c.count ∙ total;
      ends = λ f. sym total ∙ c.ends f;
    } in
    r

init_cuda :
    (k : ℕ) (world : Bool) (s : Runtime)
    → is_null s.cuda ≡ true
    → CountsAll k s
    → OnSome (CountsAll k) (construct s >>= λ t. some (record t { cuda = object world }))
init_cuda k world s e h = >>=-OnSome (CountsAll k) (construct s) _ λ t q.
    let (c, same) = on_some _ _ q (construct-Counts _ s h) in
    let none_yet = null-alive s.cuda e in
    let total : alive s.heap + (alive s.cuda + k) + 1 ≡ alive t.heap + (1 + k) =
      omega (arith, none_yet, ap alive same.0) in
    let r : CountsAll k (record t { cuda = object world }) = record {
      count = c.count ∙ total;
      ends = λ f. sym total ∙ c.ends f;
    } in
    r

pub init_global-CountsAll :
    (k : ℕ) (world : Bool) (s : Runtime)
    → CountsAll k s
    → OnSome (CountsAll k) (init_global world s)
unfolding init_global
init_global-CountsAll k world s h = >>=-OnSome (CountsAll k) _ _ λ t q.
    let c : CountsAll k t = on_some (CountsAll k) _ q first in
    elim (Bool-cases (is_null t.cuda)) [ inl e ↦ rw e (init_cuda k world t e c) | inr e ↦ rw e c ]
  where
    first : OnSome (CountsAll k) (
        if is_null s.heap
        then (construct s >>= λ t. some (record t { heap = object world }))
        else some s)
    first = elim (Bool-cases (is_null s.heap)) [
      | inl e ↦ rw e (init_heap k world s e h)
      | inr e ↦ rw e h
    ]

pub delete_global-CountsAll :
    (k : ℕ) (s : Runtime) → k + 3 < 2 ^ 64 → CountsAll k s → OnSome (CountsAll k) (delete_global s)
unfolding delete_global
delete_global-CountsAll k s b h =
    let few = alive_few s.cuda in
    >>=-OnSome (CountsAll k) (delete_pointer s.heap s) _ λ t e.
      let (c, same) =
        on_some _ _ e
          (delete_pointer-Counts (alive s.cuda + k) s.heap s (omega (arith, b, few)) h) in
      let t' = record t { heap = deleted t.heap } in
      let c' : Counts (alive t.cuda + k) t' = record {
        count = c.count ∙ ap (λ q. alive q + k) (sym same.1);
        ends = λ f. ap (λ q. alive q + k) same.1 ∙ c.ends f;
      } in
      >>=-OnSome (CountsAll k) (delete_pointer t.cuda t') _ λ u f.
        let (d, same') = on_some _ _ f (delete_pointer-Counts k t.cuda t' (omega (arith, b)) c') in
        let total : k ≡ alive u.heap + (alive (deleted u.cuda) + k) =
          omega (arith, deleted-alive u.cuda, ap alive same'.0, deleted-alive t.heap) in
        let r : CountsAll k (record u { cuda = deleted u.cuda }) = record {
          count = d.count ∙ total;
          ends = λ g. sym total ∙ d.ends g;
        } in
        r
