-- ===== src/Semantic/Send/Cells.antt =====
-- The array mem of Vcluster (VCluster/VCluster.hpp) where it holds a list from a position on.
use openfpm_vcluster.Prelude.{
  ℕ, zero, suc, ◌+◌, ◌-◌, ◌≤◌, ◌≡◌, refl, sym, ap, ◌∙◌, subst, Bool, true, false, Option, none,
  some, List, [], ◌∷◌, ◌++◌, length, get_elem?, update, ltb, ◌==◌, if◌then◌else◌, Bool-cases, inl,
  inr, arith,
}
use openfpm_vcluster.Semantic.Pack.{PackMem}

-- Beyond the end, and at the new end
get-beyond : {A : Type 0} (xs : List A) (i : ℕ) → length xs ≤ i → get_elem? xs i ≡ none
get-beyond [] i h = refl
get-beyond (x ∷ xs) (suc i) h = get-beyond xs i (omega arith)
get-beyond (x ∷ xs) zero h = absurd (omega arith)

get-end : {A : Type 0} (xs : List A) (x : A) → get_elem? (xs ++ x ∷ []) (length xs) ≡ some x
get-end [] x = refl
get-end (y ∷ xs) x = get-end xs x

get-before :
    {A : Type 0} (xs : List A) (x : A) (i : ℕ)
    → (i == length xs) ≡ false
    → get_elem? (xs ++ x ∷ []) i ≡ get_elem? xs i
get-before [] x zero h = absurd (ground arith)
get-before [] x (suc i) h = refl
get-before (y ∷ xs) x zero h = refl
get-before (y ∷ xs) x (suc i) h = get-before xs x i (ground arith)

-- Position `j` of an array that holds `held` from position `p` on
abbrev pub cell : ℕ → List PackMem → ℕ → Option PackMem
cell p held j = if ltb j p then none else get_elem? held (j - p)

pub cell-push :
    (p c : ℕ) (held : List PackMem) (x : PackMem) (j : ℕ)
    → p + length held ≡ c
    → update (cell p held) c (some x) j ≡ cell p (held ++ x ∷ []) j
cell-push p c held x j h = elim (Bool-cases (j == c)) [
  | inl e ↦
      let low : ltb j p ≡ false = ground arith in
      let at : j - p ≡ length held = ground arith in rw (e, low, at) (sym (get-end held x))
  | inr e ↦ elim (Bool-cases (ltb j p)) [
    | inl l ↦ rw (e, l) refl
    | inr l ↦
        let at : (j - p == length held) ≡ false = ground arith in
        rw (e, l) (sym (get-before held x (j - p) at))
  ]
]

pub cell-pop :
    (p : ℕ) (x : PackMem) (held : List PackMem) (j : ℕ)
    → update (cell p (x ∷ held)) p none j ≡ cell (p + 1) held j
cell-pop p x held j = elim (Bool-cases (j == p)) [
  | inl e ↦ let low : ltb j (p + 1) ≡ true = ground arith in rw (e, low) refl
  | inr e ↦ elim (Bool-cases (ltb j p)) [
    | inl l ↦ let low : ltb j (p + 1) ≡ true = ground arith in rw (e, l, low) refl
    | inr l ↦
        let low : ltb j (p + 1) ≡ false = ground arith in
        let next : j - p ≡ suc (j - (p + 1)) = ground arith in rw (e, l, low, next) refl
  ]
]

pub cell-end : (p c : ℕ) (held : List PackMem) → p + length held ≡ c → cell p held c ≡ none
cell-end p c held h =
    let low : ltb c p ≡ false = ground arith in rw low (get-beyond held (c - p) (omega arith))

pub cell-none : (p j : ℕ) → cell p [] j ≡ none
cell-none p j = either (ltb j p)
  where
    either : (b : Bool) → ◌≡◌ {A = Option PackMem} (if b then none else none) none
    either true = refl
    either false = refl

pub cell-empty : (p q j : ℕ) → cell p [] j ≡ cell q [] j
cell-empty p q j = cell-none p j ∙ sym (cell-none q j)

pub update-at :
    (f g : ℕ → Option PackMem) (k : ℕ) (v : Option PackMem) (j : ℕ)
    → f j ≡ g j
    → update f k v j ≡ update g k v j
update-at f g k v j e = ap (λ (y : Option PackMem). if j == k then v else y) e

pub update-none :
    (f : ℕ → Option PackMem) (j k : ℕ) (x : PackMem)
    → f j ≡ none
    → update (update f j (some x)) j none k ≡ f k
update-none f j k x e = elim (Bool-cases (k == j)) [
  | inl b ↦ let q : j ≡ k = ground arith in rw b (sym (subst (λ i. f i ≡ none) q e))
  | inr b ↦ rw b refl
]
