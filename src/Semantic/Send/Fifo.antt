-- ===== src/Semantic/Send/Fifo.antt =====
-- What the asynchronous calls promise, and that their counters and arrays keep it
-- (VCluster/VCluster.hpp).
use openfpm_vcluster.Prelude.{
  ℕ, ◌+◌, ◌≤◌, ◌≡◌, refl, sym, ap, ap₂, ◌∙◌, true, false, Option, none, some, List, [], ◌∷◌, ◌++◌,
  length, update, leb, ◌==◌, if◌then◌else◌, ◌>>=◌, on_some, arith, length-append,
}
use openfpm_vcluster.Semantic.Pack.{PackMem}
use openfpm_vcluster.Semantic.Send.{Vcluster, next_wait}
use openfpm_vcluster.Semantic.Send.Cells.{
  cell, cell-push, cell-pop, cell-none, cell-empty, cell-end, update-at, update-none,
}
use openfpm_vcluster.Semantic.Send.Positions.{Placed, IsFreed}

-- The contract: the memory of the asynchronous calls that were not waited for, oldest first, and how
-- many calls were made since there was none.
pub record Outstanding : Type 0 where
  pub made : ℕ
  pub held : List PackMem

pub data Event : Type 0 where
  called : PackMem → Event
  waited : Event
  exchanged : Event

-- A call adds its memory at the end, if fewer than four were made; a wait deletes the oldest; a
-- synchronous call leaves nothing.
unfoldable pub react : Event → Outstanding → Option Outstanding
react (called x) o =
    if leb 4 o.made then none else some (record { made = o.made + 1; held = o.held ++ x ∷ [] })
react exchanged o = if leb 4 o.made then none else some o
react waited o = elim o.held [
  | [] ↦ none
  | x ∷ [] ↦ some (record { made = 0; held = [] })
  | x ∷ y ∷ xs ↦ some (record { made = o.made; held = y ∷ xs })
]

unfoldable pub react_all : List Event → Outstanding → Option Outstanding
unfolding react
react_all [] o = some o
react_all (e ∷ es) o = react e o >>= λ p. react_all es p

-- The counters and arrays stand for `o`.
pub record Represents (o : Outstanding) (s : Vcluster) : Type 0 where
  pub made : o.made ≡ s.scnt
  pub bound : s.scnt ≤ 4
  pub count : s.pcnt + length o.held ≡ s.scnt
  pub idle : length o.held ≡ 0 → s.scnt ≡ 0
  pub mem : (j : ℕ) → s.mem j ≡ cell s.pcnt o.held j

pub react-called :
    (o : Outstanding) (s t : Vcluster) (x : PackMem)
    → Represents o s
    → Placed x s.scnt s t
    → (p : Outstanding) × (react (called x) o ≡ some p)
      × Represents p (record t { scnt = t.scnt + 1 })
unfolding react
react-called o s t x h f =
    let room : leb 4 o.made ≡ false = ground (arith, h.made, f.inside) in
    (
      record { made = o.made + 1; held = o.held ++ x ∷ [] },
      rw room refl,
      record {
        made = omega (arith, h.made, f.scnt);
        bound = omega (arith, f.inside, f.scnt);
        count = omega (arith, f.scnt, f.pcnt, h.count, length-append o.held (x ∷ []));
        idle = λ e. absurd (omega (arith, e, length-append o.held (x ∷ [])));
        mem = λ j.
            ap (λ g. g j) f.mem
            ∙ update-at s.mem (cell s.pcnt o.held) s.scnt (some x) j (h.mem j)
            ∙ cell-push s.pcnt s.scnt o.held x j h.count
            ∙ ap (λ n. cell n (o.held ++ x ∷ []) j) (sym f.pcnt);
      },
    )

pub react-exchanged :
    (o : Outstanding) (s t u : Vcluster) (x : PackMem)
    → Represents o s
    → Placed x s.scnt s t
    → IsFreed t.scnt t u
    → (p : Outstanding) × (react exchanged o ≡ some p) × Represents p u
unfolding react
react-exchanged o s t u x h f g =
    let room : leb 4 o.made ≡ false = ground (arith, h.made, f.inside) in
    let free : s.mem s.scnt ≡ none = h.mem s.scnt ∙ cell-end s.pcnt s.scnt o.held h.count in
    (
      o,
      rw room refl,
      record {
        made = h.made ∙ sym (g.scnt ∙ f.scnt);
        bound = omega (arith, h.bound, g.scnt, f.scnt);
        count = omega (arith, h.count, g.scnt, f.scnt, g.pcnt, f.pcnt);
        idle = λ e. g.scnt ∙ f.scnt ∙ h.idle e;
        mem = λ j.
            ap (λ h. h j)
              (g.mem ∙ ap₂ (λ (h : ℕ → Option PackMem) (k : ℕ). update h k none) f.mem f.scnt)
            ∙ update-none s.mem s.scnt j x free
            ∙ h.mem j
            ∙ ap (λ n. cell n o.held j) (sym (g.pcnt ∙ f.pcnt));
      },
    )

-- After a wait that leaves others, and after the last
next_wait-other :
    (s : Vcluster) → (s.scnt == s.pcnt + 1) ≡ false → next_wait s ≡ record s { pcnt = s.pcnt + 1 }
unfolding next_wait
next_wait-other s e = rw e refl

next_wait-last :
    (s : Vcluster) → (s.scnt == s.pcnt + 1) ≡ true → next_wait s ≡ record s { scnt = 0; pcnt = 0 }
unfolding next_wait
next_wait-last s e = rw e refl

abbrev pub WaitKeeps : Outstanding → Vcluster → Type 0
WaitKeeps o t = (p : Outstanding) × (react waited o ≡ some p) × Represents p (next_wait t)

-- The arrays after the memory of the oldest call is deleted
freed_cells :
    (p : ℕ) (x : PackMem) (held : List PackMem) (s t : Vcluster)
    → ((j : ℕ) → s.mem j ≡ cell s.pcnt (x ∷ held) j)
    → IsFreed s.pcnt s t
    → (j : ℕ) → t.mem j ≡ cell (s.pcnt + 1) held j
freed_cells p x held s t h f j =
    ap (λ g. g j) f.mem
    ∙ update-at s.mem (cell s.pcnt (x ∷ held)) s.pcnt none j (h j)
    ∙ cell-pop s.pcnt x held j

pub react-waited :
    (made : ℕ) (held : List PackMem) (s t : Vcluster)
    → Represents (record { made = made; held = held }) s
    → IsFreed s.pcnt s t
    → WaitKeeps (record { made = made; held = held }) t
unfolding react
react-waited made [] s t h f =
    absurd
      (on_some (λ (x : PackMem). ⊥) none (sym (h.mem s.pcnt ∙ cell-none s.pcnt s.pcnt) ∙ f.was) tt)
react-waited made (x ∷ []) s t h f =
    let e : (t.scnt == t.pcnt + 1) ≡ true = ground (arith, h.count, f.scnt, f.pcnt) in
    let r : Represents (record { made = 0; held = [] }) (record t { scnt = 0; pcnt = 0 }) = record {
      made = refl;
      bound = omega arith;
      count = omega arith;
      idle = λ q. refl;
      mem = λ j. freed_cells 0 x [] s t h.mem f j ∙ cell-empty (s.pcnt + 1) 0 j;
    } in
    (record { made = 0; held = [] }, refl, rw (next_wait-last t e) r)
react-waited made (x ∷ y ∷ held) s t h f =
    let e : (t.scnt == t.pcnt + 1) ≡ false = ground (arith, h.count, f.scnt, f.pcnt) in
    let r : Represents (record { made = made; held = y ∷ held }) (record t { pcnt = t.pcnt + 1 }) =
      record {
        made = h.made ∙ sym f.scnt;
        bound = omega (arith, h.bound, f.scnt);
        count = omega (arith, h.count, f.scnt, f.pcnt);
        idle = λ q. absurd (omega (arith, q));
        mem = λ j.
            freed_cells 0 x (y ∷ held) s t h.mem f j
            ∙ ap (λ n. cell (n + 1) (y ∷ held) j) (sym f.pcnt);
      } in
    (record { made = made; held = y ∷ held }, refl, rw (next_wait-other t e) r)
