-- ===== src/Nbx/WaitSlot.antt =====
-- What the wait does at one position of the queue (VCluster/VCluster_base.hpp,
-- sendrecvMultipleMessagesNBXWait).
use native.Mathlib.Nat.{mod-add-mod}
use openfpm_vcluster.Prelude.{
  ℕ, ◌+◌, ◌%◌, ◌<◌, ◌≡◌, refl, ap, ◌∙◌, List, [], ◌==◌, if◌then◌else◌, arith, OnSome, on_some,
  >>=-OnSome,
}
use openfpm_vcluster.Wire.{Mpi}
use openfpm_vcluster.Nbx.State.{
  nbx_unactive, nbx_known, Nbx, Outgoing, MsgAlloc, set_active, log_clear,
}
use openfpm_vcluster.Nbx.Progress.{Poll}
use openfpm_vcluster.Nbx.Wait.{
  execute, advance, exchange_sized, with_sizes, wait_loop, clear_requests, finish_known,
  continue_known_prc, finish_unknown,
}
use openfpm_vcluster.Nbx.Completion.{wait_loop-SameExchange}
use openfpm_vcluster.Nbx.Requests.{
  SameQueue, queue_trans, send_all-SameQueue, recv_all-SameQueue, execute-req, execute-slots,
  execute-counters, Advanced, advance-Advanced,
}

two_steps : (a c : ℕ) → 0 < c → ((a + 1) % c + 1) % c ≡ (a + 2) % c
two_steps a c h = mod-add-mod (a + 1) c 1 ∙ ap (λ (x : ℕ). x % c) (omega arith)

module _ {U : Type 0} where
  -- The exchange at position `j` is over, after `n` steps of the counter.
  pub record Finished (s : Nbx U) (j n : ℕ) (t : Nbx U) : Type 0 where
    pub positive : 0 < s.nbx_cycle
    pub cnt : t.nbx_cnt ≡ (s.nbx_cnt + n) % s.nbx_cycle
    pub cycle : t.nbx_cycle ≡ s.nbx_cycle
    pub req : t.req ≡ []
    pub active :
        (k : ℕ) → (t.slots k).active ≡ (if k == j then nbx_unactive else (s.slots k).active)

  pub finish_known-Finished :
      (j : ℕ) (vs : List ℕ) (s : Nbx U) → OnSome (Finished s j 1) (finish_known j vs s)
  unfolding finish_known
  finish_known-Finished j vs s = >>=-OnSome (Finished s j 1) (advance (execute vs s)) _ λ t e.
      let a = on_some (Advanced (execute vs s)) _ e (advance-Advanced (execute vs s)) in
      finished t a.0 a.1
    where
      c :
          ((execute vs s).nbx_cnt ≡ s.nbx_cnt)
          × ((execute vs s).nbx_cycle ≡ s.nbx_cycle)
          × ((execute vs s).queued ≡ s.queued)
      c = execute-counters vs s

      finished :
          (t : Nbx U)
          → 0 < (execute vs s).nbx_cycle
          → t ≡ record (execute vs s) {
            nbx_cnt = ((execute vs s).nbx_cnt + 1) % (execute vs s).nbx_cycle;
          }
          → Finished s j 1 (set_active j nbx_unactive t)
      finished t p e = rw e (record {
        positive = omega (arith, c);
        cnt = rw (c.0, c.1);
        cycle = c.1;
        req = execute-req vs s;
        active = λ k. rw (execute-slots vs s) (ground arith);
      })

  pub finish_unknown-Finished :
      (m : Mpi) (j : ℕ) (ps : List Poll) (s : Nbx U)
      → OnSome (λ r. Finished s j 1 r.0) (finish_unknown m j ps s)
  unfolding finish_unknown clear_requests log_clear
  finish_unknown-Finished m j ps s = >>=-OnSome _ (wait_loop m j ps s) _ λ r e.
      >>=-OnSome _ (advance (clear_requests r.0)) _ λ t h.
        let a = on_some (Advanced (clear_requests r.0)) _ h (advance-Advanced _) in
        let same = (wait_loop-SameExchange m j ps s r e).0 in
        rw a.1 (record {
          positive = omega (arith, same.cycle, a.0);
          cnt = rw (same.cnt, same.cycle);
          cycle = same.cycle;
          req = refl;
          active = λ k. ground (arith, same.active k);
        })

  exchange_sized-SameQueue :
      (outs : List Outgoing) (prcs : List ℕ) (alloc : MsgAlloc U) (arg : ℕ) (s : Nbx U)
      → OnSome (SameQueue s) (exchange_sized outs prcs alloc arg s)
  unfolding exchange_sized
  exchange_sized-SameQueue outs prcs alloc arg s =
      >>=-OnSome (SameQueue s) (with_sizes prcs s.sz_recv_tmp) _ λ ins e.
        queue_trans _ _ _ (send_all-SameQueue _ outs s) (recv_all-SameQueue _ 0 alloc arg 0 ins _)

  -- The sizes have come, and the messages themselves are under way.
  pub record Continued (s : Nbx U) (j : ℕ) (t : Nbx U) : Type 0 where
    pub positive : 0 < s.nbx_cycle
    pub cnt : t.nbx_cnt ≡ (s.nbx_cnt + 1) % s.nbx_cycle
    pub cycle : t.nbx_cycle ≡ s.nbx_cycle
    pub active : (k : ℕ) → (t.slots k).active ≡ (if k == j then nbx_known else (s.slots k).active)

  continued :
      (j : ℕ) (vs : List ℕ) (s t u : Nbx U)
      → Advanced (execute vs s) t
      → SameQueue t u
      → Continued s j (set_active j nbx_known u)
  continued j vs s t u (p, e) f =
      let c = execute-counters vs s in
      record {
        positive = omega (arith, c, p);
        cnt = f.cnt ∙ rw e (rw (c.0, c.1));
        cycle = f.cycle ∙ rw e c.1;
        active = λ k. rw (f.slots, e, execute-slots vs s) (ground arith);
      }

  pub continue_known_prc-Continued :
      (j : ℕ) (vs : List ℕ) (s : Nbx U) → OnSome (Continued s j) (continue_known_prc j vs s)
  unfolding continue_known_prc
  continue_known_prc-Continued j vs s = >>=-OnSome (Continued s j) (advance (execute vs s)) _ λ t e.
      >>=-OnSome (Continued s j) (exchange_sized _ _ _ _ t) _ λ u h.
        continued j vs s t u
          (on_some (Advanced (execute vs s)) _ e (advance-Advanced (execute vs s)))
          (on_some (SameQueue t) _ h (exchange_sized-SameQueue _ _ _ _ t))

  pub Continued-Finished :
      (s : Nbx U) (j : ℕ) (t u : Nbx U) → Continued s j t → Finished t j 1 u → Finished s j 2 u
  Continued-Finished s j t u f g = record {
    positive = f.positive;
    cnt = g.cnt ∙ rw (f.cycle, f.cnt) (two_steps s.nbx_cnt s.nbx_cycle f.positive);
    cycle = g.cycle ∙ f.cycle;
    req = g.req;
    active = λ k. ground (arith, g.active k, f.active k);
  }
