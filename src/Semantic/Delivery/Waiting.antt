-- ===== src/Semantic/Delivery/Waiting.antt =====
-- The loop of the wait over the positions of the queue, and what has been received before each
-- (VCluster/VCluster_base.hpp: sendrecvMultipleMessagesNBXWait).
use native.Mathlib.Decide.{ℕ_discrete, dec_lt}
use openfpm_vcluster.Prelude.{
  ℕ, ◌+◌, ◌≤◌, ◌<◌, ◌≡◌, ◌≢◌, refl, sym, ap, ◌∙◌, subst, true, some, List, [], ◌∷◌, ◌++◌, OnSome,
  on_some, >>=-OnSome, arith,
}
use openfpm_vcluster.Wire.{Mpi}
use openfpm_vcluster.Nbx.State.{nbx_unactive, Nbx, set_active, log_clear}
use openfpm_vcluster.Nbx.Progress.{Poll, ignores}
use openfpm_vcluster.Nbx.Requests.{Advanced, advance-Advanced, execute-slots, execute-counters}
use openfpm_vcluster.Nbx.Wait.{
  execute, advance, clear_requests, finish_known, finish_unknown, wait_loop,
}
use openfpm_vcluster.Semantic.Reorder.Order.{Arrival}
use openfpm_vcluster.Semantic.Alloc.{Memory}
use openfpm_vcluster.Semantic.Alloc.Recording.{Records}
use openfpm_vcluster.Semantic.Alloc.Growth.{InUse, info_at, Received}
use openfpm_vcluster.Semantic.Alloc.Hearing.{heard_all}
use openfpm_vcluster.Semantic.Delivery.Kept.{Keeps, Keeps-mem}
use openfpm_vcluster.Semantic.Delivery.Queued.{
  Released, Released-Received, released_info, released_there, released_other, true-false,
}

known_base : (vs : List ℕ) (s : Nbx Memory) → (execute vs s).cnt_base ≡ s.cnt_base
unfolding execute
known_base vs s = ground arith

known_mem : (vs : List ℕ) (s : Nbx Memory) → (execute vs s).mem ≡ s.mem
unfolding execute
known_mem vs s = ground arith

-- A step of the counter, and the release of the position
stepped-Released :
    (j : ℕ) (s w t : Nbx Memory)
    → w.mem ≡ s.mem
    → w.cnt_base ≡ s.cnt_base
    → w.queued ≡ s.queued
    → w.slots ≡ s.slots
    → Advanced w t
    → Released j s (set_active j nbx_unactive t)
stepped-Released j s w t e f g h (p, q) =
    rw q (record { mem = e; base = f; queued = g; slots = rw h refl })

pub finish_known-Released :
    (j : ℕ) (vs : List ℕ) (s : Nbx Memory) → OnSome (Released j s) (finish_known j vs s)
unfolding finish_known
finish_known-Released j vs s = >>=-OnSome (Released j s) (advance (execute vs s)) _ λ t e.
    stepped-Released j s (execute vs s) t (known_mem vs s) (known_base vs s)
      (execute-counters vs s).2 (execute-slots vs s)
      (on_some (Advanced (execute vs s)) _ e (advance-Advanced (execute vs s)))

-- The polling for position `j`, and then its release
pub record Polls (m : Mpi) (j : ℕ) (ps : List Poll) (s : Nbx Memory) (r : Nbx Memory × List Poll)
    : Type 0 where
  pub end : Nbx Memory × List Poll
  pub loop : wait_loop m j ps s ≡ some end
  pub left : r.1 ≡ end.1
  pub released : Released j end.0 r.0

pub finish_unknown-Polls :
    (m : Mpi) (j : ℕ) (ps : List Poll) (s : Nbx Memory)
    → OnSome (Polls m j ps s) (finish_unknown m j ps s)
unfolding finish_unknown clear_requests log_clear
finish_unknown-Polls m j ps s = >>=-OnSome (Polls m j ps s) (wait_loop m j ps s) _ λ r e.
    let w = clear_requests r.0 in
    >>=-OnSome (Polls m j ps s) (advance w) _ λ t f. record {
      end = r;
      loop = e;
      left = refl;
      released =
          stepped-Released j r.0 w t refl refl refl refl
            (on_some (Advanced w) _ f (advance-Advanced w));
    }

module _ (m : Mpi) (start : Nbx Memory) (rs : ℕ → List Arrival) (all : List Poll) where
  -- Position `k` holds what it had received, and what was shown for it up to a round that found the
  -- barrier complete.
  pub record Settled (k : ℕ) (s : Nbx Memory) : Type 0 where
    pub rounds : List Poll
    pub last : Poll
    pub rest : List Poll
    pub consumed : all ≡ rounds ++ last ∷ rest
    pub barrier : last.barrier_done ≡ true
    pub records :
        Records s.mem k (info_at start k) (rs k ++ heard_all m (rounds ++ last ∷ []) start k)

  -- The wait comes to position `j`: the rounds `used` are over, and `left` are to come.
  pub record Midway (j : ℕ) (used left : List Poll) (s : Nbx Memory) : Type 0 where
    pub split : used ++ left ≡ all
    pub base : s.cnt_base ≡ start.cnt_base
    pub queued : s.queued ≡ start.queued
    pub infos : (k : ℕ) → info_at s k ≡ info_at start k
    pub ahead : (k : ℕ) → j ≤ k → (s.slots k).active ≡ (start.slots k).active
    pub behind : (k : ℕ) → k < j → (s.slots k).active ≡ nbx_unactive
    pub got : Received (λ k. rs k ++ heard_all m used start k) s
    pub done : (k : ℕ) → k < j → InUse start k → Settled k s

  pub Midway-ahead :
      (j : ℕ) (used left : List Poll) (s : Nbx Memory)
      → Midway j used left s
      → (k : ℕ) → InUse s k
      → j ≤ k
  Midway-ahead j used left s w k u = elim (dec_lt k j) [
    | yes l ↦ absurd (true-false (sym (ap ignores (w.behind k l)) ∙ u))
    | no l ↦ omega arith
  ]

  pub Midway-start_use :
      (j : ℕ) (used left : List Poll) (s : Nbx Memory)
      → Midway j used left s
      → (k : ℕ) → InUse s k
      → InUse start k
  Midway-start_use j used left s w k u =
      ap ignores (sym (w.ahead k (Midway-ahead j used left s w k u))) ∙ u

  pub Settled-mem :
      (k : ℕ) (s t : Nbx Memory)
      → ((qs : List Arrival) → Keeps k (info_at start k) qs s t)
      → Settled k s
      → Settled k t
  Settled-mem k s t e x = record {
    rounds = x.rounds;
    last = x.last;
    rest = x.rest;
    consumed = x.consumed;
    barrier = x.barrier;
    records = e _ x.records;
  }

  -- A position that is not in use, or whose exchange is over, is passed.
  pub Midway-Released :
      (j : ℕ) (used left : List Poll) (s t : Nbx Memory)
      → Midway j used left s
      → (InUse start j → Settled j s)
      → Released j s t
      → Midway (j + 1) used left t
  Midway-Released j used left s t w here e =
      let keeps = λ (k : ℕ) (qs : List Arrival). Keeps-mem k (info_at start k) qs s t e.mem in
      record {
        split = w.split;
        base = e.base ∙ w.base;
        queued = e.queued ∙ w.queued;
        infos = λ k. released_info j s t e k ∙ w.infos k;
        ahead = λ k l.
            let q : k ≢ j = λ x. absurd (omega (arith, x)) in
            ap (λ x. x.active) (released_other j s t e k q) ∙ w.ahead k (omega arith);
        behind = λ k l. elim (ℕ_discrete k j) [
          | yes q ↦ subst (λ n. (t.slots n).active ≡ nbx_unactive) (sym q) (released_there j s t e)
          | no q ↦
              let l' : k < j = omega (arith, q) in
              ap (λ x. x.active) (released_other j s t e k q) ∙ w.behind k l'
        ];
        got = Released-Received j s t e _ w.got;
        done = λ k l u. elim (ℕ_discrete k j) [
          | yes q ↦
              subst (λ n. Settled n t) (sym q)
                (Settled-mem j s t (keeps j) (here (subst (InUse start) q u)))
          | no q ↦ Settled-mem k s t (keeps k) (w.done k (omega (arith, q)) u)
        ];
      }
