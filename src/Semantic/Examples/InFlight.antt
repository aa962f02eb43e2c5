-- ===== src/Semantic/Examples/InFlight.antt =====
-- The statement on several exchanges in flight, at two calls.
use mathlib.Core.List.{Mem, Pairwise, mem-cons, not-mem-nil}
use mathlib.Core.Logic.Or
use openfpm_vcluster.Prelude.{ℕ, ◌<◌, ◌≡◌, ◌≢◌, refl, ap, some, List, [], ◌∷◌, arith}
use openfpm_vcluster.Wire.Platform.{usual_mpi}
use openfpm_vcluster.Semantic.Reorder.Order.{Arrival}
use openfpm_vcluster.Semantic.Pack.Unpack.{process_receive_buffer}
use openfpm_vcluster.Semantic.Pack.Sending.{all_outgoing, messages-pack_all}
use openfpm_vcluster.Semantic.Pack.{linear}
use openfpm_vcluster.Semantic.Send.Starting.{messages_of}
use openfpm_vcluster.Semantic.Send.{Vcluster, Request}
use openfpm_vcluster.Semantic.Send.Calling.{Asks, ApartCallers, call_each}
use openfpm_vcluster.Semantic.Send.WaitAll.{AllWaited}
use openfpm_vcluster.Semantic.Send.InFlight.{HeardFor, call_each-wait_each}
use openfpm_vcluster.Semantic.Examples.{insertion_sort, insertion_sort-IsSort}
use openfpm_vcluster.Semantic.Examples.Queued.{mixed_answers, mixed-Enough}
use openfpm_vcluster.Semantic.Examples.Sending.{
  quiet, quiet-IsIdle, to_five, to_five-messages, two_elements, unpack_elements, nothing_yet,
}

-- The same elements again, with another vector of the caller
abbrev again : Request
again = record to_five { prc_recv = 8; base = 950 }

to_five-Asks : Asks to_five
to_five-Asks = record { flag = refl; empty = refl; outs = _; sends = to_five-messages }

again-messages : messages_of again ≡ some (all_outgoing (5 ∷ []) (two_elements ∷ []))
again-messages =
    (messages-pack_all (linear 2) (5 ∷ []) (two_elements ∷ []) (record { base = 950; written = [] })
      refl ((refl, tt), tt)).0

again-Asks : Asks again
again-Asks = record { flag = refl; empty = refl; outs = _; sends = again-messages }

apart : ApartCallers (to_five ∷ again ∷ [])
apart = Pairwise.cons others (Pairwise.cons (λ q i. absurd (not-mem-nil i)) Pairwise.nil)
  where
    another-prop : (q : Request) → IsProp (7 ≢ q.prc_recv)
    another-prop q = hlevel

    seven : (q : Request) → q ≡ again → 7 ≢ q.prc_recv
    seven q e x =
        let p : q.prc_recv ≡ 8 = ap (λ (y : Request). y.prc_recv) e in absurd (omega (arith, x, p))

    others : (q : Request) → Mem q (again ∷ []) → 7 ≢ q.prc_recv
    others q i = Or.elim (another-prop q) (mem-cons.0 i) (seven q) (λ n. absurd (not-mem-nil n))

call_each-wait_each_example :
    (t : Vcluster) × (came : ℕ → List Arrival) × (call_each (to_five ∷ again ∷ []) quiet ≡ some t)
    × (t.pcnt ≡ 0)
    × ((k : ℕ) → k < 2 → HeardFor usual_mpi mixed_answers t k (came k))
    × AllWaited usual_mpi insertion_sort unpack_elements
        (λ k. nothing_yet)
        came
        (to_five ∷ again ∷ [])
        mixed_answers
        t
unfolding process_receive_buffer
call_each-wait_each_example =
    call_each-wait_each usual_mpi insertion_sort insertion_sort-IsSort unpack_elements
      (λ k. nothing_yet) to_five (again ∷ []) mixed_answers quiet quiet-IsIdle (omega arith)
      (omega arith) (to_five-Asks, (again-Asks, tt)) apart mixed-Enough (λ bufs u. (_, refl))
