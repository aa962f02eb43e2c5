-- ===== src/Semantic/Send/Positions.antt =====
-- What the calls SSendRecv and their asynchronous halves do with NBX_prc_scnt, NBX_prc_pcnt and the
-- memory of the positions (VCluster/VCluster.hpp).
use openfpm_vcluster.Prelude.{
  ℕ, ◌<◌, ◌≡◌, refl, ap, ◌∙◌, sym, on_some, false, Option, none, some, List, update, leb, OnSome,
  >>=-OnSome, Bool-cases, inl, inr, arith,
}
use openfpm_vcluster.Wire.{Mpi}
use openfpm_vcluster.Tags.{nqueue}
use openfpm_vcluster.Nbx.Wait.{Answers, nbx_wait}
use openfpm_vcluster.Semantic.Reorder.{Buffer, Entry, reorder_buffer}
use openfpm_vcluster.Semantic.Pack.{PackMem}
use openfpm_vcluster.Semantic.Pack.Unpack.{Unpacking}
use openfpm_vcluster.Semantic.Send.{
  Vcluster, Request, packed_of, fill_and_post, prepare_send_buffer, free_mem, reorder_at, complete,
  with_contents,
}

leb→gt : (a b : ℕ) → leb a b ≡ false → b < a
leb→gt a b h = ground arith

-- The call has memory at position `j`, and the counters are as before.
pub record Placed (x : PackMem) (j : ℕ) (s t : Vcluster) : Type 0 where
  pub inside : j < 4
  pub scnt : t.scnt ≡ s.scnt
  pub pcnt : t.pcnt ≡ s.pcnt
  pub mem : t.mem ≡ update s.mem j (some x)

pub record IsFreed (j : ℕ) (s t : Vcluster) : Type 0 where
  pub held : PackMem
  pub was : s.mem j ≡ some held
  pub scnt : t.scnt ≡ s.scnt
  pub pcnt : t.pcnt ≡ s.pcnt
  pub mem : t.mem ≡ update s.mem j none

pub prepare-Placed :
    (r : Request) (s : Vcluster) → OnSome (Placed (packed_of r) s.scnt s) (prepare_send_buffer r s)
unfolding prepare_send_buffer
prepare-Placed r s = elim (Bool-cases (leb nqueue s.scnt)) [
  | inl e ↦ rw e tt
  | inr e ↦ rw e (
      >>=-OnSome (Placed (packed_of r) s.scnt s) (fill_and_post r s) _ λ n q.
        let t = record s { nbx = n; mem = update s.mem s.scnt (some (packed_of r)) } in
        let f : Placed (packed_of r) s.scnt s t = record {
          inside = leb→gt nqueue s.scnt e;
          scnt = refl;
          pcnt = refl;
          mem = refl;
        } in
        f)
]

free_mem-IsFreed : (j : ℕ) (s : Vcluster) → OnSome (IsFreed j s) (free_mem j s)
unfolding free_mem
free_mem-IsFreed j s = freed (s.mem j) refl
  where
    freed :
        (o : Option PackMem)
        → s.mem j ≡ o
        → OnSome
            (IsFreed j s)
            (elim o [ none ↦ none | some x ↦ some (record s { mem = update s.mem j none }) ])
    freed none e = tt
    freed (some x) e = record { held = x; was = e; scnt = refl; pcnt = refl; mem = refl }

abbrev SameCounters : Vcluster → Vcluster × List Buffer → Type 0
SameCounters s r = (r.0.scnt ≡ s.scnt) × (r.0.pcnt ≡ s.pcnt) × (r.0.mem ≡ s.mem)

reorder_at_keeps :
    (sort : List Entry → List Entry) (j caller : ℕ) (s : Vcluster)
    → OnSome (SameCounters s) (reorder_at sort j caller s)
unfolding reorder_at
reorder_at_keeps sort j caller s =
    >>=-OnSome (SameCounters s)
      (reorder_buffer sort (s.nbx.mem.recv_buf s.pcnt) (s.nbx.mem.prc caller) (s.nbx.mem.tags j)
        (s.nbx.mem.sz j))
      _
      λ o q.
        let same : (s.scnt ≡ s.scnt) × (s.pcnt ≡ s.pcnt) × (s.mem ≡ s.mem) = (refl, refl, refl) in
        same

module _ (m : Mpi) (sort : List Entry → List Entry) {S : Type 0}
    (unpack : List Buffer → Unpacking S → Option (Unpacking S)) where
  pub complete-IsFreed :
      (j caller : ℕ) (a : Answers) (u : Unpacking S) (s : Vcluster)
      → OnSome (λ r. (j < 4) × IsFreed j s r.0) (complete m sort unpack j caller a u s)
  unfolding complete
  complete-IsFreed j caller a u s = elim (Bool-cases (leb nqueue j)) [
    | inl e ↦ rw e tt
    | inr e ↦ rw e (
        >>=-OnSome _ (nbx_wait m a s.nbx) _ λ n q.
          >>=-OnSome _ (reorder_at sort j caller (record s { nbx = with_contents a n })) _ λ r h.
            >>=-OnSome _ (free_mem j r.0) _ λ t k. >>=-OnSome _ (unpack r.1 u) _ λ v l.
              let same =
                on_some (SameCounters (record s { nbx = with_contents a n })) _ h
                  (reorder_at_keeps sort j caller (record s { nbx = with_contents a n })) in
              let f = on_some (IsFreed j r.0) _ k (free_mem-IsFreed j r.0) in
              let g : (j < 4) × IsFreed j s t = (
                leb→gt nqueue j e,
                record {
                  held = f.held;
                  was = sym (ap (λ f. f j) same.2) ∙ f.was;
                  scnt = f.scnt ∙ same.0;
                  pcnt = f.pcnt ∙ same.1;
                  mem = f.mem ∙ ap (λ f. update f j none) same.2;
                },
              ) in
              g)
  ]
