-- ===== src/Semantic/Send/Waits.antt =====
-- Waits for asynchronous calls, one after the other (VCluster/VCluster.hpp: SSendRecvWait).
use mathlib.Core.Option.{some-injective}
use mathlib.Core.List.{Mem, Pairwise, Perm, mem-cons_self, mem-cons_of_mem}
use openfpm_vcluster.Prelude.{
  ℕ, zero, suc, ◌+◌, ◌<◌, ◌≡◌, ◌≢◌, refl, sym, ap, ◌∙◌, subst, true, false, Option, none, some,
  List, [], ◌∷◌, length, get_elem?, update, leb, ◌==◌, arith,
}
use openfpm_vcluster.Wire.{Mpi}
use openfpm_vcluster.Tags.{nqueue}
use openfpm_vcluster.Nbx.State.{nbx_unactive, Nbx}
use openfpm_vcluster.Nbx.Wait.{Answers, nbx_wait}
use openfpm_vcluster.Semantic.Alloc.{Memory, received_into}
use openfpm_vcluster.Semantic.Alloc.Recording.{Records}
use openfpm_vcluster.Semantic.Alloc.Polling.{update_other}
use openfpm_vcluster.Semantic.Reorder.{Buffer, Entry}
use openfpm_vcluster.Semantic.Reorder.Order.{IsSort, Arrival, NotAfter, bufs_of}
use openfpm_vcluster.Semantic.Pack.{PackMem}
use openfpm_vcluster.Semantic.Pack.Unpack.{Unpacking}
use openfpm_vcluster.Semantic.Delivery.{Records-Delivered}
use openfpm_vcluster.Semantic.Send.{
  Vcluster, Request, free_mem, reorder_at, complete, next_wait, ssend_recv_wait, with_contents,
}
use openfpm_vcluster.Semantic.Send.Starting.{IsIdle, info_of}
use openfpm_vcluster.Semantic.Send.Calling.{none-some}
use openfpm_vcluster.Semantic.Send.Exchanging.{arranged, finished}

-- What the positions from `k` on hold, of the calls for the requests `qs` that are not waited for yet
pub record Holds (came : ℕ → List Arrival) (k : ℕ) (qs : List Request) (m : Memory)
    (mem : ℕ → Option PackMem) : Type 0 where
  pub records :
      (i : ℕ) (q : Request)
      → get_elem? qs i ≡ some q
      → Records m (k + i) (info_of (k + i) q) (came (k + i))
  pub held :
      (i : ℕ) (q : Request) → get_elem? qs i ≡ some q → (x : PackMem) × (mem (k + i) ≡ some x)

get_elem?-Mem : (qs : List Request) (i : ℕ) (q : Request) → get_elem? qs i ≡ some q → Mem q qs
get_elem?-Mem [] i q e = absurd (none-some e)
get_elem?-Mem (x ∷ qs) zero q e = subst (λ y. Mem y (x ∷ qs)) (some-injective x q e) mem-cons_self
get_elem?-Mem (x ∷ qs) (suc i) q e = mem-cons_of_mem x (get_elem?-Mem qs i q e)

-- A wait at position `k` changes nothing of the later ones.
Holds-rest :
    (came : ℕ → List Arrival) (k : ℕ) (r : Request) (qs : List Request) (m : Memory)
    (mem : ℕ → Option PackMem) (bs : List Arrival)
    → ((q : Request) → Mem q qs → r.prc_recv ≢ q.prc_recv)
    → Holds came k (r ∷ qs) m mem
    → Holds came (k + 1) qs (arranged k r.prc_recv bs m) (update mem k none)
Holds-rest came k r qs m mem bs apart h = record {
  records = λ i q e.
      let at : k + suc i ≡ k + 1 + i = omega arith in
      let later : k + 1 + i ≢ k = λ x. absurd (omega (arith, x)) in
      let was = subst (λ j. Records m j (info_of j q) (came j)) at (h.records (suc i) q e) in
      record {
        target = refl;
        bufs = update_other m.recv_buf k _ _ later ∙ was.bufs;
        procs =
            update_other m.prc r.prc_recv _ _ (λ x. apart q (get_elem?-Mem qs i q e) (sym x))
            ∙ was.procs;
        sizes = update_other m.sz k _ _ later ∙ was.sizes;
        tags = was.tags;
      };
  held = λ i q e.
      let at : k + suc i ≡ k + 1 + i = omega arith in
      let later : k + 1 + i ≢ k = λ x. absurd (omega (arith, x)) in
      let (x, p) = h.held (suc i) q e in (x, update_other mem k _ _ later ∙ ap mem (sym at) ∙ p);
}

-- The next wait is at position `k`; no call is queued, and those for `qs` are not waited for yet.
pub record Between (came : ℕ → List Arrival) (k : ℕ) (qs : List Request) (s : Vcluster)
    : Type 0 where
  pub pcnt : s.pcnt ≡ k
  pub scnt : s.scnt ≡ s.pcnt + length qs
  pub cycle : 0 < s.nbx.nbx_cycle
  pub free : (j : ℕ) → (s.nbx.slots j).active ≡ nbx_unactive
  pub holds : Holds came s.pcnt qs s.nbx.mem s.mem

module _ (m : Mpi) (sort : List Entry → List Entry) (good : IsSort sort) {S : Type 0}
    (unpack : List Buffer → Unpacking S → Option (Unpacking S)) (came : ℕ → List Arrival) where
  -- A wait that returns, before which the position held the messages `rs`
  pub record WaitEnds (r : Request) (a : Answers) (u : Unpacking S) (s : Vcluster) (n : Nbx Memory)
      : Type 0 where
    pub bs : List Arrival
    pub v : Unpacking S
    pub same : Perm bs (came s.pcnt)
    pub sorted : Pairwise NotAfter bs
    pub unpacked : unpack (bufs_of bs) u ≡ some v
    pub returns :
        ssend_recv_wait m sort unpack r.prc_recv a u s
        ≡ some (next_wait (finished s.pcnt r.prc_recv bs (with_contents a n) s), v)

  pub wait-WaitEnds :
      (r : Request) (qs : List Request) (a : Answers) (u : Unpacking S) (s : Vcluster)
      (n : Nbx Memory)
      → s.pcnt < 4
      → ((bufs : List Buffer) → (v : Unpacking S) × (unpack bufs u ≡ some v))
      → nbx_wait m a s.nbx ≡ some n
      → Holds came s.pcnt (r ∷ qs) (received_into a.contents n.mem) s.mem
      → WaitEnds r a u s n
  unfolding ssend_recv_wait complete reorder_at free_mem
  wait-WaitEnds r qs a u s n l total wait h =
      let x = received_into a.contents n.mem in
      let k = s.pcnt in
      let here : k + 0 ≡ k = omega arith in
      let records : Records x k (info_of k r) (came k) =
        subst (λ j. Records x j (info_of j r) (came j)) here (h.records 0 r refl) in
      let (bs, e, p, o) = Records-Delivered sort good x k (info_of k r) (came k) records in
      let (v, q) = total (bufs_of bs) in
      let (y, z) = h.held 0 r refl in
      let held : s.mem k ≡ some y = ap s.mem (sym here) ∙ z in
      let room : leb nqueue k ≡ false = ground (arith, l) in
      record {
        bs = bs;
        v = v;
        same = p;
        sorted = o;
        unpacked = q;
        returns = rw room (rw wait (rw e (rw (held, free_mem) (rw q refl))));
      }

  -- After it, and before the next
  pub after-Between :
      (r q : Request) (qs : List Request) (bs : List Arrival) (s : Vcluster) (x : Nbx Memory)
      → s.scnt ≡ s.pcnt + length (r ∷ q ∷ qs)
      → 0 < x.nbx_cycle
      → ((j : ℕ) → (x.slots j).active ≡ nbx_unactive)
      → ((p : Request) → Mem p (q ∷ qs) → r.prc_recv ≢ p.prc_recv)
      → Holds came s.pcnt (r ∷ q ∷ qs) x.mem s.mem
      → Between came (s.pcnt + 1) (q ∷ qs) (next_wait (finished s.pcnt r.prc_recv bs x s))
  unfolding next_wait
  after-Between r q qs bs s x e c f apart h =
      let other : (s.scnt == s.pcnt + 1) ≡ false = ground (arith, e) in
      let b : Between came (s.pcnt + 1) (q ∷ qs)
          (record (finished s.pcnt r.prc_recv bs x s) { pcnt = s.pcnt + 1 }) =
        record {
          pcnt = refl;
          scnt = omega (arith, e);
          cycle = c;
          free = f;
          holds = Holds-rest came s.pcnt r (q ∷ qs) x.mem s.mem bs apart h;
        } in
      rw other b

  pub after_last :
      (r : Request) (bs : List Arrival) (s : Vcluster) (x : Nbx Memory)
      → s.scnt ≡ s.pcnt + 1
      → 0 < x.nbx_cycle
      → x.queued ≡ 0
      → ((j : ℕ) → (x.slots j).active ≡ nbx_unactive)
      → IsIdle (next_wait (finished s.pcnt r.prc_recv bs x s))
  unfolding next_wait
  after_last r bs s x e c q f =
      let last : (s.scnt == s.pcnt + 1) ≡ true = ground (arith, e) in
      let b : IsIdle (record (finished s.pcnt r.prc_recv bs x s) { scnt = 0; pcnt = 0 }) = record {
        scnt = refl;
        pcnt = refl;
        queued = q;
        cycle = c;
        active = f;
      } in
      rw last b
