-- ===== src/Semantic/Send/InFlight.antt =====
-- Several asynchronous exchanges with unknown senders in flight at once, and the waits for them
-- (VCluster/VCluster.hpp: SSendRecvAsync and SSendRecvWait).
use native.Mathlib.Decide.{dec_lt}
use openfpm_vcluster.Prelude.{
  ℕ, zero, suc, ◌+◌, ◌≤◌, ◌<◌, ◌≡◌, ◌≢◌, refl, sym, ap, ◌∙◌, subst, true, Option, some, List, [],
  ◌∷◌, ◌++◌, All, length, get_elem?, on_some, arith,
}
use openfpm_vcluster.Wire.{Mpi}
use openfpm_vcluster.Nbx.State.{nbx_unactive, nbx_known_prc, Nbx}
use openfpm_vcluster.Nbx.Progress.{Poll, ignores}
use openfpm_vcluster.Nbx.Wait.{Answers, nbx_wait}
use openfpm_vcluster.Nbx.Completion.{Enough}
use openfpm_vcluster.Nbx.WaitAll.{Completed}
use openfpm_vcluster.Nbx.Returning.{nbx_wait-returns}
use openfpm_vcluster.Semantic.Alloc.{Memory, received_into}
use openfpm_vcluster.Semantic.Alloc.Recording.{Records}
use openfpm_vcluster.Semantic.Alloc.Growth.{InUse, info_at}
use openfpm_vcluster.Semantic.Alloc.Hearing.{heard_all}
use openfpm_vcluster.Semantic.Reorder.{Buffer, Entry}
use openfpm_vcluster.Semantic.Reorder.Order.{IsSort, Arrival}
use openfpm_vcluster.Semantic.Delivery.Contents.{carrying, Records-carrying}
use openfpm_vcluster.Semantic.Delivery.Queued.{true-false}
use openfpm_vcluster.Semantic.Delivery.Several.{AllSettled, nbx_wait-AllSettled}
use openfpm_vcluster.Semantic.Pack.Unpack.{Unpacking}
use openfpm_vcluster.Semantic.Send.{Vcluster, Request, packed_of}
use openfpm_vcluster.Semantic.Send.Starting.{IsIdle, info_of}
use openfpm_vcluster.Semantic.Send.Asynchronous.{IsOpen}
use openfpm_vcluster.Semantic.Send.Calling.{
  Asks, ApartCallers, Called, call_each, call_each-Called, none-some,
}
use openfpm_vcluster.Semantic.Send.Waits.{Holds}
use openfpm_vcluster.Semantic.Send.WaitAll.{AllWaited, wait_each-AllWaited}

idle-IsOpen : (s : Vcluster) → IsIdle s → s.nbx.nbx_cnt < s.nbx.nbx_cycle → IsOpen s
idle-IsOpen s h c = record {
  queued = h.queued ∙ sym h.scnt;
  counter = c;
  free = λ j l. h.active j;
  awaits = λ j l. absurd (omega (arith, l, h.scnt));
  argument = λ j l. absurd (omega (arith, l, h.scnt));
  sizes = λ j l. absurd (omega (arith, l, h.scnt));
  tags = λ j l. absurd (omega (arith, l, h.scnt));
  got = record {
    own = record {
      buffers = λ j u. absurd (unused j u);
      sizes = λ j k u v e. absurd (unused j u);
      tags = λ j k u v e. absurd (unused j u);
      callers = λ j k u v e. absurd (unused j u);
    };
    slot = λ j u. absurd (unused j u);
  };
}
  where
    unused : (j : ℕ) → InUse s.nbx j → ⊥
    unused j u = true-false (sym (ap ignores (h.active j)) ∙ u)

open_not_prc : (t : Vcluster) → IsOpen t → (k : ℕ) → (t.nbx.slots k).active ≢ nbx_known_prc
open_not_prc t h k e = elim (dec_lt k t.scnt) [
  | yes l ↦ let q = h.awaits k l in grind arith
  | no l ↦ let q = h.free k (omega (arith, l)) in grind arith
]

all_free :
    (t : Vcluster) (n : Nbx Memory)
    → IsOpen t
    → t.scnt ≤ 4
    → Completed 4 0 t.nbx n
    → (j : ℕ) → (n.slots j).active ≡ nbx_unactive
all_free t n h l c j = elim (dec_lt j 4) [
  | yes b ↦ ground (arith, c.active j, b)
  | no b ↦ let q = h.free j (omega (arith, b, l)) in ground (arith, c.active j, b, q)
]

get_elem?-bound :
    (rs : List Request) (i : ℕ) (q : Request) → get_elem? rs i ≡ some q → i < length rs
get_elem?-bound [] i q e = absurd (none-some e)
get_elem?-bound (x ∷ rs) zero q e = omega arith
get_elem?-bound (x ∷ rs) (suc i) q e = let b = get_elem?-bound rs i q e in omega (arith, b)

module _ (m : Mpi) where
  -- `qs` are the messages, with their bytes, that the polling showed for position `k` up to a round
  -- that found the barrier complete.
  pub record HeardFor (a : Answers) (t : Vcluster) (k : ℕ) (qs : List Arrival) : Type 0 where
    pub rounds : List Poll
    pub last : Poll
    pub rest : List Poll
    pub consumed : a.polls ≡ rounds ++ last ∷ rest
    pub barrier : last.barrier_done ≡ true
    pub shown : qs ≡ carrying (a.contents k) (heard_all m (rounds ++ last ∷ []) t.nbx k)

  -- The messages for the position, and where they are
  abbrev Arrivals : Answers → Vcluster → Nbx Memory → ℕ → Type 0
  Arrivals a t n k =
      (qs : List Arrival) × (k < t.scnt
        → HeardFor a t k qs × Records (received_into a.contents n.mem) k (info_at t.nbx k) qs)

  arrivals_at :
      (a : Answers) (t : Vcluster) (n : Nbx Memory)
      → IsOpen t
      → t.scnt ≤ 4
      → nbx_wait m a t.nbx ≡ some n
      → (k : ℕ) → Arrivals a t n k
  unfolding AllSettled
  arrivals_at a t n h l wait k = elim (dec_lt k t.scnt) [
    | yes b ↦
        let settled =
          on_some (AllSettled m a t.nbx (λ j. [])) _ wait
            (nbx_wait-AllSettled m a t.nbx (λ j. []) (open_not_prc t h) h.got) in
        let x = settled k (omega (arith, b, l)) (h.awaits k b) in
        (
          carrying (a.contents k) (heard_all m (x.rounds ++ x.last ∷ []) t.nbx k),
          λ b. (
            record {
              rounds = x.rounds;
              last = x.last;
              rest = x.rest;
              consumed = x.consumed;
              barrier = x.barrier;
              shown = refl;
            },
            Records-carrying a.contents n.mem k (info_at t.nbx k) _ x.records,
          ),
        )
    | no b ↦ ([], λ c. absurd (b c))
  ]

  -- What the positions hold when MPI has written the buffers
  called-Holds :
      (rs : List Request) (a : Answers) (s t : Vcluster) (n : Nbx Memory) (f : Called rs s t)
      (l : t.scnt ≤ 4) (wait : nbx_wait m a t.nbx ≡ some n)
      → s.scnt ≡ t.pcnt
      → Holds
          (λ k. (arrivals_at a t n f.still l wait k).0)
          t.pcnt
          rs
          (received_into a.contents n.mem)
          t.mem
  called-Holds rs a s t n f l wait e =
      let came = λ (k : ℕ). (arrivals_at a t n f.still l wait k).0 in
      let x = received_into a.contents n.mem in
      record {
        records = λ i q g.
            let b : t.pcnt + i < t.scnt = omega (arith, f.scnt, e, get_elem?-bound rs i q g) in
            let named : info_at t.nbx (t.pcnt + i) ≡ info_of (t.pcnt + i) q =
              subst (λ k. info_at t.nbx (k + i) ≡ info_of (k + i) q) e (f.infos i q g) in
            subst (λ y. Records x (t.pcnt + i) y (came (t.pcnt + i))) named
              ((arrivals_at a t n f.still l wait (t.pcnt + i)).1 b).1;
        held = λ i q g.
            (packed_of q, subst (λ k. t.mem (k + i) ≡ some (packed_of q)) e (f.held i q g));
      }

  module _ (sort : List Entry → List Entry) (good : IsSort sort) {S : Type 0}
      (unpack : List Buffer → Unpacking S → Option (Unpacking S)) (us : ℕ → Unpacking S) where
    -- Up to four asynchronous calls with unknown senders, made one after the other where no call is
    -- outstanding, each with nothing in its `sz_recv`, objects that make messages as they should and
    -- a vector of the caller of its own; and then a wait for each, in the same order, with an
    -- unpacking that always ends, given four rounds of polling in which an exchange can end and
    -- messages that MPI can count in the others. All calls return, all waits return, and no call is
    -- outstanding after them. Each wait unpacks the messages that the polling showed for its call's
    -- position, with their bytes, up to a round that found the barrier complete, in the order of
    -- their senders and tags, whichever position the polling was done for.
    pub call_each-wait_each :
        (r : Request) (rs : List Request) (a : Answers) (s : Vcluster)
        → IsIdle s
        → s.nbx.nbx_cnt < s.nbx.nbx_cycle
        → length (r ∷ rs) ≤ 4
        → All Asks (r ∷ rs)
        → ApartCallers (r ∷ rs)
        → Enough m 4 a.polls
        → ((bufs : List Buffer) (u : Unpacking S) → (v : Unpacking S) × (unpack bufs u ≡ some v))
        → (t : Vcluster) × (came : ℕ → List Arrival) × (call_each (r ∷ rs) s ≡ some t)
          × (t.pcnt ≡ 0)
          × ((k : ℕ) → k < length (r ∷ rs) → HeardFor a t k (came k))
          × AllWaited m sort unpack us came (r ∷ rs) a t
    call_each-wait_each r rs a s h c l asks apart enough total =
        let (t, made, f) =
          call_each-Called (r ∷ rs) s (idle-IsOpen s h c) (omega (arith, l, h.scnt)) asks apart
            (λ q i j b. absurd (omega (arith, b, h.scnt))) in
        let few : t.scnt ≤ 4 = omega (arith, f.scnt, h.scnt, l) in
        let (n, wait, free, done) =
          nbx_wait-returns m a t.nbx f.still.counter (open_not_prc t f.still) enough in
        let arrived = arrivals_at a t n f.still few wait in
        let start : t.pcnt ≡ 0 = f.pcnt ∙ h.pcnt in
        let from : s.scnt ≡ t.pcnt = h.scnt ∙ sym start in
        let holds = called-Holds (r ∷ rs) a s t n f few wait from in
        (
          t,
          λ k. (arrived k).0,
          made,
          start,
          λ k b. ((arrived k).1 (omega (arith, b, f.scnt, h.scnt))).0,
          wait_each-AllWaited m sort unpack us good total (λ k. (arrived k).0) r rs a t n wait
              (omega (arith, f.scnt, h.scnt, start)) few
              (omega (arith, done.cycle, f.still.counter)) free (all_free t n f.still few done)
              apart holds,
        )
