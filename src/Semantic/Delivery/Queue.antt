-- ===== src/Semantic/Delivery/Queue.antt =====
-- The loop of the wait over a queue of exchanges, position by position (VCluster/VCluster_base.hpp:
-- sendrecvMultipleMessagesNBXWait, with msg_alloc of VCluster/VCluster.hpp).
use native.Mathlib.Decide.{ℕ_discrete}
use openfpm_vcluster.Prelude.{
  ℕ, zero, suc, ◌+◌, ◌≡◌, ◌≢◌, refl, sym, ap, ◌∙◌, subst, fun_ext, true, some, List, ◌++◌, OnSome,
  on_some, >>=-OnSome, OnSome-mono, arith, ◌>>=◌, update,
}
use openfpm_vcluster.Wire.{Mpi}
use openfpm_vcluster.Nbx.State.{NbxType, nbx_unactive, nbx_unknown, nbx_known, nbx_known_prc, Nbx}
use openfpm_vcluster.Nbx.Progress.{Poll, ignores}
use openfpm_vcluster.Nbx.Wait.{Answers, finish_known, finish_unknown, wait_slot, wait_slots}
use openfpm_vcluster.Semantic.Reorder.Order.{Arrival}
use openfpm_vcluster.Semantic.Alloc.{Memory}
use openfpm_vcluster.Semantic.Alloc.Growth.{InUse, IsOwn}
use openfpm_vcluster.Semantic.Alloc.Polling.{update_other}
use openfpm_vcluster.Semantic.Delivery.Queued.{Released, true-false}
use openfpm_vcluster.Semantic.Delivery.Waiting.{
  Settled, Midway, Midway-Released, finish_known-Released, Polls, finish_unknown-Polls,
}
use openfpm_vcluster.Semantic.Delivery.Turn.{Midway-polled}

-- A free position is released as it is.
free-Released : (j : ℕ) (s : Nbx Memory) → (s.slots j).active ≡ nbx_unactive → Released j s s
free-Released j s q = record { mem = refl; base = refl; queued = refl; slots = kept }
  where
    kept : s.slots ≡ update s.slots j (record (s.slots j) { active = nbx_unactive })
    kept = fun_ext λ k. elim (ℕ_discrete k j) [
      | yes e ↦ ground (arith, q, e)
      | no e ↦ sym (update_other s.slots j _ k e)
    ]

module _ (m : Mpi) (start : Nbx Memory) (rs : ℕ → List Arrival) (all : List Poll)
    (own : IsOwn start) where
  -- The wait has come to position `j`.
  abbrev Next : ℕ → Nbx Memory × List Poll → Type 0
  Next j r = (used : List Poll) × Midway m start rs all j used r.1 r.0

  not_awaiting :
      (j : ℕ) (used left : List Poll) (s : Nbx Memory)
      → Midway m start rs all j used left s
      → ignores (s.slots j).active ≡ true
      → InUse start j
      → Settled m start rs all j s
  not_awaiting j used left s w i u =
      absurd (true-false (sym i ∙ ap ignores (w.ahead j (omega arith)) ∙ u))

  known-Next :
      (j : ℕ) (used left : List Poll) (vs : List ℕ) (s : Nbx Memory)
      → Midway m start rs all j used left s
      → (s.slots j).active ≡ nbx_known
      → OnSome (Next (j + 1)) (finish_known j vs s >>= λ t. some (t, left))
  known-Next j used left vs s w q = >>=-OnSome (Next (j + 1)) (finish_known j vs s) _ λ t e.
      let released = on_some (Released j s) _ e (finish_known-Released j vs s) in
      (
        used,
        Midway-Released m start rs all j used left s t w
            (not_awaiting j used left s w (ap ignores q)) released,
      )

  unknown-Next :
      (j : ℕ) (used left : List Poll) (s : Nbx Memory)
      → Midway m start rs all j used left s
      → OnSome (Next (j + 1)) (finish_unknown m j left s)
  unknown-Next j used left s w =
      OnSome-mono (Polls m j left s) (Next (j + 1)) (finish_unknown m j left s)
        (λ r p.
          let (new, v, here) = Midway-polled m start rs all own j used left s p.end w p.loop in
          (
            used ++ new,
            subst (λ x. Midway m start rs all (j + 1) (used ++ new) x r.0) (sym p.left)
                (Midway-Released m start rs all j (used ++ new) p.end.1 p.end.0 r.0 v here
                  p.released),
          ))
        (finish_unknown-Polls m j left s)

  wait_slot-Next :
      (j : ℕ) (used : List Poll) (a : Answers) (s : Nbx Memory) (x : NbxType)
      → (s.slots j).active ≡ x
      → x ≢ nbx_known_prc
      → Midway m start rs all j used a.polls s
      → OnSome (Next (j + 1)) (wait_slot m j a s)
  unfolding wait_slot
  wait_slot-Next j used a s nbx_unactive q b w =
      rw (q, wait_slot)
        (
          used,
          Midway-Released m start rs all j used a.polls s s w
              (not_awaiting j used a.polls s w (ap ignores q)) (free-Released j s q),
        )
  wait_slot-Next j used a s nbx_unknown q b w = rw (q, wait_slot) (unknown-Next j used a.polls s w)
  wait_slot-Next j used a s nbx_known q b w =
      rw (q, wait_slot) (known-Next j used a.polls (a.sizes j) s w q)
  wait_slot-Next j used a s nbx_known_prc q b w = absurd (b refl)

  pub wait_slots-Next :
      (n j : ℕ) (used : List Poll) (a : Answers) (s : Nbx Memory)
      → ((k : ℕ) → (start.slots k).active ≢ nbx_known_prc)
      → Midway m start rs all j used a.polls s
      → OnSome (λ t. (left : List Poll) × Next (j + n) (t, left)) (wait_slots m n j a s)
  unfolding wait_slots
  wait_slots-Next zero j used a s b w =
      let count : j ≡ j + 0 = omega arith in
      (a.polls, (used, subst (λ i. Midway m start rs all i used a.polls s) count w))
  wait_slots-Next (suc n) j used a s b w =
      >>=-OnSome (λ t. (left : List Poll) × Next (j + suc n) (t, left)) (wait_slot m j a s) _
        λ r e.
          let (used', w') =
            on_some (Next (j + 1)) _ e
              (wait_slot-Next j used a s _ refl (λ q. b j (sym (w.ahead j (omega arith)) ∙ q)) w) in
          let count : j + 1 + n ≡ j + suc n = omega arith in
          subst
            (λ i.
              OnSome (λ t. (left : List Poll) × Next i (t, left))
                (wait_slots m n (j + 1) (record a { polls = r.1 }) r.0))
            count (wait_slots-Next n (j + 1) used' (record a { polls = r.1 }) r.0 b w')
