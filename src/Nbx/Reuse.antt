-- ===== src/Nbx/Reuse.antt =====
-- The tags of one queue of calls and of the next (VCluster/VCluster_base.hpp: NBX_cnt is stepped so
-- that a message is not taken for one of another exchange).
use openfpm_vcluster.Prelude.{
  ℕ, ◌+◌, ◌^◌, ◌<◌, ◌≡◌, refl, ◌∙◌, false, some, List, [], ◌∷◌, ◌++◌, ◌==◌, if◌then◌else◌, inr,
  arith, ◌>>=◌, OnSome, on_some,
}
use native.Mathlib.Nat.{mod-eq_of_lt}
use openfpm_vcluster.Wire.{Mpi}
use openfpm_vcluster.Tags.{sparse_tag}
use openfpm_vcluster.Nbx.State.{
  nbx_unactive, nbx_unknown, Nbx, Outgoing, MsgAlloc, complain, asynchronous_running,
}
use openfpm_vcluster.Nbx.Progress.{Poll}
use openfpm_vcluster.Nbx.Post.{async_unknown}
use openfpm_vcluster.Nbx.Wait.{Answers, nbx_wait, sync_unknown}
use openfpm_vcluster.Nbx.WaitAll.{steps_from, is_unactive, nbx_wait-Completed}
use openfpm_vcluster.Nbx.Posting.{sparse_calls}
use openfpm_vcluster.Nbx.Queue.{async_unknown-queues}
use openfpm_vcluster.Nbx.Sync.{sync_unknown_refused}

module _ {U : Type 0} where
  -- The positions below the number of queued calls are in use.
  abbrev pub IsContiguous : Nbx U → Type 0
  IsContiguous s = (k : ℕ) → k < s.queued → is_unactive (s.slots k).active ≡ false

  -- The queue after a refused synchronous call and one more asynchronous call
  record Skipped (s : Nbx U) (outs : List Outgoing) (u : Nbx U) : Type 0 where
    cnt : u.nbx_cnt ≡ s.nbx_cnt
    req : u.req ≡ s.req ++ sparse_calls s.nbx_cnt 2 0 outs
    active : (k : ℕ) → (u.slots k).active ≡ (if k == 2 then nbx_unknown else (s.slots k).active)

  refused_then_queued :
      (m : Mpi) (ps : List Poll) (outs outs' : List Outgoing) (alloc alloc' : MsgAlloc U)
      (arg arg' : ℕ) (s : Nbx U)
      → s.queued ≡ 1
      → s.stat ≡ 0
      → s.tot_sent < 2 ^ 64
      → OnSome
          (Skipped s outs')
          (sync_unknown m outs alloc arg ps s >>= async_unknown outs' alloc' arg')
  refused_then_queued m ps outs outs' alloc alloc' arg arg' s h z b =
      rw (sync_unknown_refused m outs alloc arg ps s (omega arith)) (
        let t = record s {
          queued = s.queued + 1;
          calls = s.calls ++ complain asynchronous_running ∷ [];
        } in
        let (u, e, _, cnt, req, _, active) =
          async_unknown-queues outs' alloc' arg' t (omega arith) (z, inr (omega arith)) b in
        let two : s.queued + 1 ≡ 2 = omega arith in
        rw e (record { cnt = cnt; req = req ∙ rw two; active = λ k. active k ∙ rw two }))

  -- A synchronous call made while one asynchronous call is queued is refused, but the position of
  -- the queue that it counted stays empty. The next asynchronous call takes the position after it,
  -- and once a wait has completed both calls, the messages of the next exchange have the very tags
  -- that this call's messages had (as long as NBX_cnt does not wrap round).
  pub refused_call_reuses_tags :
      (m : Mpi) (ps : List Poll) (a : Answers) (outs outs' : List Outgoing)
      (alloc alloc' : MsgAlloc U) (arg arg' i : ℕ) (s u v : Nbx U)
      → s.queued ≡ 1
      → s.stat ≡ 0
      → s.tot_sent < 2 ^ 64
      → (s.slots 0).active ≡ nbx_unknown
      → (s.slots 1).active ≡ nbx_unactive
      → (s.slots 3).active ≡ nbx_unactive
      → u.nbx_cnt + 2 < u.nbx_cycle
      → (sync_unknown m outs alloc arg ps s >>= async_unknown outs' alloc' arg') ≡ some u
      → nbx_wait m a u ≡ some v
      → (u.req ≡ s.req ++ sparse_calls s.nbx_cnt 2 0 outs')
        × (sparse_tag v.nbx_cnt 0 i ≡ sparse_tag s.nbx_cnt 2 i)
  unfolding sparse_tag
  refused_call_reuses_tags m ps a outs outs' alloc alloc' arg arg' i s u v h z b a0 a1 a3 w e f =
      let k =
        on_some (Skipped s outs') _ e
          (refused_then_queued m ps outs outs' alloc alloc' arg arg' s h z b) in
      let total : steps_from 4 0 u ≡ 2 =
        rw (k.active 0, k.active 1, k.active 2, k.active 3, a0, a1, a3) refl in
      let cnt : v.nbx_cnt ≡ u.nbx_cnt + 2 =
        (nbx_wait-Completed m a u v (omega arith) f).1.cnt ∙ rw total (mod-eq_of_lt w) in
      (k.req, omega (arith, cnt, k.cnt))
