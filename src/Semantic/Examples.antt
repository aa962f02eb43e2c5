-- ===== src/Semantic/Examples.antt =====
-- The statements on receive buffers, at a few small messages.
mod Exchange
mod Queued
mod InFlight
mod Packing
mod Sending
mod Merging
mod Objects
mod KnownCalls
mod Sessions
mod Merges
mod Scattering
use mathlib.Core.List.{Mem, Pairwise, Perm, Pairwise-cons, mem-cons, not-mem-nil}
use mathlib.Core.Logic.Or
use mathlib.Core.List.Perm
use openfpm_vcluster.Prelude.{
  ◌≡◌, refl, sym, subst, true, false, some, List, [], ◌∷◌, if◌then◌else◌, Bool-cases, inl, inr,
  arith,
}
use openfpm_vcluster.Semantic.Reorder.{Entry, before, less, reorder_buffer}
use openfpm_vcluster.Semantic.Reorder.Order.{
  IsSort, Arrival, bufs_of, procs_of, tags_of, sizes_of, reordered, NotAfter, reorder_buffer-orders,
}

-- An insertion sort, as a sort that the class could use
abbrev insert : Entry → List Entry → List Entry
insert e [] = e ∷ []
insert e (x ∷ xs) = let rest = insert e xs in if less x e then x ∷ rest else e ∷ x ∷ xs

abbrev pub insertion_sort : List Entry → List Entry
insertion_sort [] = []
insertion_sort (e ∷ es) = insert e (insertion_sort es)

insert-perm : (e : Entry) (xs : List Entry) → Perm (insert e xs) (e ∷ xs)
insert-perm e [] = Perm.refl _
insert-perm e (x ∷ xs) = elim (Bool-cases (less x e)) [
  | inl b ↦ rw b (Perm.trans (Perm.cons x (insert-perm e xs)) (Perm.swap e x xs))
  | inr b ↦ rw b (Perm.refl (e ∷ x ∷ xs))
]

insertion_sort-perm : (es : List Entry) → Perm (insertion_sort es) es
insertion_sort-perm [] = Perm.refl _
insertion_sort-perm (e ∷ es) =
    Perm.trans (insert-perm e (insertion_sort es)) (Perm.cons e (insertion_sort-perm es))

abbrev InOrder : Entry → Entry → Type 0
InOrder a b = less b a ≡ false

InOrder-trans : (a b c : Entry) → InOrder a b → InOrder b c → InOrder a c
unfolding before
InOrder-trans a b c p q = grind arith

less_asym : (a b : Entry) → less a b ≡ true → InOrder a b
unfolding before
less_asym a b h = grind arith

InOrder-prop : (a b : Entry) → IsProp (InOrder a b)
InOrder-prop a b = hlevel

after_head :
    (e : Entry) (xs : List Entry) (a : Entry)
    → InOrder a e
    → ((y : Entry) → Mem y xs → InOrder a y)
    → (y : Entry) → Mem y (e ∷ xs)
    → InOrder a y
after_head e xs a h k y m =
    Or.elim (InOrder-prop a y) (mem-cons.0 m) (λ q. subst (λ z. InOrder a z) (sym q) h) (λ n. k y n)

insert-sorted : (e : Entry) (xs : List Entry) → Pairwise InOrder xs → Pairwise InOrder (insert e xs)
insert-sorted e [] p = Pairwise.cons (λ y m. absurd (not-mem-nil m)) Pairwise.nil
insert-sorted e (x ∷ xs) p =
    let (h, q) = Pairwise-cons.0 p in
    elim (Bool-cases (less x e)) [
      | inl b ↦ rw b (
          Pairwise-cons.1 (
            λ y m. after_head e xs x (less_asym x e b) h y ((Perm.mem_iff (insert-perm e xs)).0 m),
            insert-sorted e xs q,
          ))
      | inr b ↦
          rw b (Pairwise-cons.1 (after_head x xs e b (λ y m. InOrder-trans e x y b (h y m)), p))
    ]

insertion_sort-sorted : (es : List Entry) → Pairwise InOrder (insertion_sort es)
insertion_sort-sorted [] = Pairwise.nil
insertion_sort-sorted (e ∷ es) = insert-sorted e (insertion_sort es) (insertion_sort-sorted es)

pub insertion_sort-IsSort : IsSort insertion_sort
insertion_sort-IsSort = record { permutes = insertion_sort-perm; sorts = insertion_sort-sorted }

-- Three messages of two processes, out of order.
abbrev of_two : Arrival
of_two = record { proc = 2; tag = 8192; buf = 7 ∷ 8 ∷ []; sz = 2 }

abbrev of_one : Arrival
of_one = record { proc = 1; tag = 8193; buf = 5 ∷ []; sz = 1 }

abbrev of_one_first : Arrival
of_one_first = record { proc = 1; tag = 8192; buf = 4 ∷ []; sz = 1 }

abbrev arrived : List Arrival
arrived = of_two ∷ of_one ∷ of_one_first ∷ []

reorder_buffer-orders_example :
    (bs : List Arrival) × (reorder_buffer insertion_sort
        (bufs_of arrived)
        (procs_of arrived)
        (tags_of arrived)
        (sizes_of arrived)
      ≡ some (reordered bs))
    × Perm bs arrived
    × Pairwise NotAfter bs
reorder_buffer-orders_example = reorder_buffer-orders insertion_sort insertion_sort-IsSort arrived
