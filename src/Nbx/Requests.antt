-- ===== src/Nbx/Requests.antt =====
-- What posting a request, and waiting for all of them, leave alone (VCluster/VCluster_base.hpp: send,
-- recv, execute, and the loops that call them).
use openfpm_vcluster.Prelude.{
  ℕ, ◌+◌, ◌%◌, ◌<◌, ◌≡◌, refl, ◌∙◌, List, [], ◌∷◌, ◌==◌, Bool-cases, inl, inr, arith, OnSome,
}
use openfpm_vcluster.Tags.{next_cnt}
use openfpm_vcluster.Nbx.State.{Call, Nbx, Outgoing, Incoming, MsgAlloc, post}
use openfpm_vcluster.Nbx.Post.{send, recv, send_all, recv_one, recv_all, send_sizes, recv_sizes}
use openfpm_vcluster.Nbx.Wait.{execute, advance}

-- `t` is `s` with requests posted: the counters, the queue and its positions are the same.
pub record SameQueue {U : Type 0} (s t : Nbx U) : Type 0 where
  pub cnt : t.nbx_cnt ≡ s.nbx_cnt
  pub cycle : t.nbx_cycle ≡ s.nbx_cycle
  pub base : t.cnt_base ≡ s.cnt_base
  pub queued : t.queued ≡ s.queued
  pub stat : t.stat ≡ s.stat
  pub sizes : t.sz_recv_tmp ≡ s.sz_recv_tmp
  pub slots : t.slots ≡ s.slots

module _ {U : Type 0} where
  pub queue_refl : (s : Nbx U) → SameQueue s s
  queue_refl s = record {
    cnt = refl;
    cycle = refl;
    base = refl;
    queued = refl;
    stat = refl;
    sizes = refl;
    slots = refl;
  }

  pub queue_trans : (s t u : Nbx U) → SameQueue s t → SameQueue t u → SameQueue s u
  queue_trans s t u f g = record {
    cnt = g.cnt ∙ f.cnt;
    cycle = g.cycle ∙ f.cycle;
    base = g.base ∙ f.base;
    queued = g.queued ∙ f.queued;
    stat = g.stat ∙ f.stat;
    sizes = g.sizes ∙ f.sizes;
    slots = g.slots ∙ f.slots;
  }

  pub post-SameQueue : (c : Call) (s : Nbx U) → SameQueue s (post c s)
  post-SameQueue c s = record {
    cnt = refl;
    cycle = refl;
    base = refl;
    queued = refl;
    stat = refl;
    sizes = refl;
    slots = refl;
  }

  pub send_all-SameQueue :
      (tag : ℕ) (outs : List Outgoing) (s : Nbx U) → SameQueue s (send_all tag outs s)
  unfolding send_all send
  send_all-SameQueue tag [] s = queue_refl s
  send_all-SameQueue tag (o ∷ os) s =
      queue_trans _ _ _ (post-SameQueue _ s) (send_all-SameQueue tag os _)

  recv_one-SameQueue :
      (tag shown : ℕ) (alloc : MsgAlloc U) (arg i : ℕ) (n : Incoming) (s : Nbx U)
      → SameQueue s (recv_one tag shown alloc arg i n s)
  unfolding recv_one recv
  recv_one-SameQueue tag shown alloc arg i n s = record {
    cnt = refl;
    cycle = refl;
    base = refl;
    queued = refl;
    stat = refl;
    sizes = refl;
    slots = refl;
  }

  pub recv_all-SameQueue :
      (tag shown : ℕ) (alloc : MsgAlloc U) (arg i : ℕ) (ins : List Incoming) (s : Nbx U)
      → SameQueue s (recv_all tag shown alloc arg i ins s)
  unfolding recv_all
  recv_all-SameQueue tag shown alloc arg i [] s = queue_refl s
  recv_all-SameQueue tag shown alloc arg i (n ∷ ns) s =
      queue_trans _ _ _ (recv_one-SameQueue tag shown alloc arg i n s)
        (recv_all-SameQueue tag shown alloc arg (i + 1) ns _)

  pub send_sizes-SameQueue :
      (tag i : ℕ) (outs : List Outgoing) (s : Nbx U) → SameQueue s (send_sizes tag i outs s)
  unfolding send_sizes send
  send_sizes-SameQueue tag i [] s = queue_refl s
  send_sizes-SameQueue tag i (o ∷ os) s =
      queue_trans _ _ _ (post-SameQueue _ s) (send_sizes-SameQueue tag (i + 1) os _)

  pub recv_sizes-SameQueue :
      (tag i : ℕ) (prcs : List ℕ) (s : Nbx U) → SameQueue s (recv_sizes tag i prcs s)
  unfolding recv_sizes recv
  recv_sizes-SameQueue tag i [] s = queue_refl s
  recv_sizes-SameQueue tag i (p ∷ ps) s =
      queue_trans _ _ _ (post-SameQueue _ s) (recv_sizes-SameQueue tag (i + 1) ps _)

  pub execute-req : (vs : List ℕ) (s : Nbx U) → (execute vs s).req ≡ []
  unfolding execute
  execute-req vs s = ground arith

  pub execute-slots : (vs : List ℕ) (s : Nbx U) → (execute vs s).slots ≡ s.slots
  unfolding execute
  execute-slots vs s = ground arith

  pub execute-counters :
      (vs : List ℕ) (s : Nbx U)
      → ((execute vs s).nbx_cnt ≡ s.nbx_cnt)
        × ((execute vs s).nbx_cycle ≡ s.nbx_cycle)
        × ((execute vs s).queued ≡ s.queued)
  unfolding execute
  execute-counters vs s = (ground arith, ground arith, ground arith)

  -- A step of the counter, where it is defined
  abbrev pub Advanced : Nbx U → Nbx U → Type 0
  Advanced s t = (0 < s.nbx_cycle) × (t ≡ record s { nbx_cnt = (s.nbx_cnt + 1) % s.nbx_cycle })

  pub advance-Advanced : (s : Nbx U) → OnSome (Advanced s) (advance s)
  unfolding advance next_cnt
  advance-Advanced s = elim (Bool-cases (s.nbx_cycle == 0)) [
    | inl e ↦ rw e tt
    | inr e ↦ rw e (ground arith, refl)
  ]
