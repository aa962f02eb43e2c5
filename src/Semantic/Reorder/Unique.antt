-- ===== src/Semantic/Reorder/Unique.antt =====
-- That reorder_buffer leaves nothing to chance: the order in which messages arrive has no influence.
use mathlib.Core.List.{Pairwise, Perm, mem-cons, mem-cons_self, Pairwise-cons, perm-cons}
use mathlib.Core.List.Perm
use mathlib.Core.List.Pairwise
use mathlib.Core.Logic.Or
use openfpm_vcluster.Prelude.{◌≡◌, sym, ap, ap₂, ◌∙◌, true, some, List, [], ◌∷◌, arith}
use openfpm_vcluster.Semantic.Reorder.{Entry, before, reorder_buffer}
use openfpm_vcluster.Semantic.Reorder.Order.{
  IsSort, Arrival, bufs_of, procs_of, tags_of, sizes_of, reordered, NotAfter, reorder_buffer-orders,
}

-- Two lists in the same strict order that hold the same elements are equal.
module _ {ℓ κ} {A : Type ℓ} (A-set : IsSet A) (R : A → A → Type κ)
    (asym : (a b : A) → R a b → R b a → ⊥) where
  heads_eq :
      (x y : A) (xs ys : List A)
      → Pairwise R (x ∷ xs)
      → Pairwise R (y ∷ ys)
      → Perm (x ∷ xs) (y ∷ ys)
      → x ≡ y
  heads_eq x y xs ys p q h =
      Or.elim (A-set x y) (mem-cons.0 ((Perm.mem_iff h).0 mem-cons_self)) (λ e. e)
        λ m.
          Or.elim (A-set x y) (mem-cons.0 ((Perm.mem_iff (Perm.symm h)).0 mem-cons_self))
            (λ e. sym e)
            λ n. absurd (asym x y ((Pairwise-cons.0 p).0 y n) ((Pairwise-cons.0 q).0 x m))

  ordered_unique : (xs ys : List A) → Pairwise R xs → Pairwise R ys → Perm xs ys → xs ≡ ys
  ordered_unique [] ys p q h = Perm.nil-eq h
  ordered_unique (x ∷ xs) [] p q h = Perm.eq-nil h
  ordered_unique (x ∷ xs) (y ∷ ys) p q h =
      let e = heads_eq x y xs ys p q h in
      let h' : Perm (x ∷ xs) (x ∷ ys) = rw (← e) at h in
      ap₂ (λ (a : A) (as' : List A). a ∷ as') e
        (ordered_unique xs ys (Pairwise-cons.0 p).1 (Pairwise-cons.0 q).1 ((perm-cons x).0 h'))

-- Two messages have different keys.
abbrev pub Distinct : Arrival → Arrival → Type 0
Distinct a b = ¬ ((a.proc ≡ b.proc) × (a.tag ≡ b.tag))

abbrev pub Before : Arrival → Arrival → Type 0
Before a b = before a.proc a.tag b.proc b.tag ≡ true

strict : (a b : Arrival) → NotAfter a b → Distinct a b → Before a b
unfolding before
strict a b h d = grind arith

Before-asym : (a b : Arrival) → Before a b → Before b a → ⊥
unfolding before
Before-asym a b h k = ground arith

Arrival-set : IsSet Arrival
Arrival-set = hlevel

apart : {xs ys : List Arrival} → Perm xs ys → Pairwise Distinct xs → Pairwise Distinct ys
apart = Perm.pairwise (λ a b. hlevel) (λ a b n m. n (sym m.0, sym m.1))

Before-Distinct : (a b : Arrival) → Before a b → Distinct a b
unfolding before
Before-Distinct a b h (e, f) = ground arith

-- Only one order of the same messages is the order of their senders and tags.
pub sorted_unique :
    (bs' bs : List Arrival) → Perm bs' bs → Pairwise NotAfter bs' → Pairwise Before bs → bs' ≡ bs
sorted_unique bs' bs moved o' o =
    let d = apart (Perm.symm moved) (Pairwise.imp Before-Distinct o) in
    ordered_unique Arrival-set Before Before-asym bs' bs (Pairwise.imp₂ strict o' d) o moved

module _ (sort : List Entry → List Entry) (good : IsSort sort) where
  -- Two processes that received the same messages, no two of them with the same sender and tag, in
  -- whatever order, are left with the same buffers, senders and sizes in the same order.
  pub reorder_buffer_unique :
      (rs rs' : List Arrival)
      → Perm rs rs'
      → Pairwise Distinct rs
      → reorder_buffer sort (bufs_of rs) (procs_of rs) (tags_of rs) (sizes_of rs)
        ≡ reorder_buffer sort (bufs_of rs') (procs_of rs') (tags_of rs') (sizes_of rs')
  reorder_buffer_unique rs rs' h d =
      let (bs, e, p, o) = reorder_buffer-orders sort good rs in
      let (bs', e', p', o') = reorder_buffer-orders sort good rs' in
      let moved : Perm bs bs' = Perm.trans p (Perm.trans h (Perm.symm p')) in
      let d0 : Pairwise Distinct bs = apart (Perm.symm p) d in
      let d1 : Pairwise Distinct bs' = apart moved d0 in
      let same =
        ordered_unique Arrival-set Before Before-asym bs bs' (Pairwise.imp₂ strict o d0)
          (Pairwise.imp₂ strict o' d1) moved in
      e ∙ ap (λ x. some (reordered x)) same ∙ sym e'

  -- Messages that have an order of their senders and tags come out in that order.
  pub reorder_buffer-sorted :
      (rs bs : List Arrival)
      → Perm rs bs
      → Pairwise Before bs
      → reorder_buffer sort (bufs_of rs) (procs_of rs) (tags_of rs) (sizes_of rs)
        ≡ some (reordered bs)
  reorder_buffer-sorted rs bs h o =
      let (bs', e, p, o') = reorder_buffer-orders sort good rs in
      e ∙ ap (λ x. some (reordered x)) (sorted_unique bs' bs (Perm.trans p h) o' o)
