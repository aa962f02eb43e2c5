-- ===== src/Nbx/Completion.antt =====
-- That the loop of a wait ends, and what it leaves (VCluster/VCluster_base.hpp).
use openfpm_vcluster.Nbx.Frame.{SameExchange, same_trans, nbx_report-same, progress-SameExchange}
use openfpm_vcluster.Nbx.Barrier.{enters, check_sends-enters}
use openfpm_vcluster.Prelude.{
  ℕ, zero, suc, ◌<◌, ◌≡◌, refl, sym, ap, ◌∙◌, subst, Bool, true, false, ◌&&◌, ◌||◌, Option, none,
  some, List, [], ◌∷◌, leb, Bool-cases, inl, inr, arith, OnSome, on_some, >>=-OnSome,
}
use openfpm_vcluster.Wire.{Mpi, Probed, probe_size}
use openfpm_vcluster.Tags.{nqueue, slot_of_tag}
use openfpm_vcluster.Nbx.State.{nbx_unknown, Nbx, nbx_report}
use openfpm_vcluster.Nbx.Progress.{
  Message, Poll, ignores, accept, check_sends, on_message, progress,
}
use openfpm_vcluster.Nbx.Wait.{wait_loop}

-- MPI_Get_count describes the message that a round shows, if it shows one.
abbrev pub HasSize : Mpi → Option Message → Type 0
HasSize m none = Unit
HasSize m (some msg) = (pr : Probed) × (probe_size m msg.bytes ≡ some pr)

abbrev pub Countable : Mpi → Poll → Type 0
Countable m p = HasSize m p.probe

-- A round in which every exchange can end: no message is left, the sends are acknowledged, and the
-- barrier is complete.
pub record IsFinal (p : Poll) : Type 0 where
  pub quiet : p.probe ≡ none
  pub sent : (j : ℕ) → p.all_sent j ≡ true
  pub barrier : p.barrier_done ≡ true

-- MPI's answers contain `n` such rounds, among others whose messages it can count.
pub data Enough (m : Mpi) : ℕ → List Poll → Type 0 where
  none_needed : (ps : List Poll) → Enough m zero ps
  other_round :
      {n : ℕ} {ps : List Poll} (p : Poll) → Countable m p → Enough m n ps → Enough m n (p ∷ ps)
  final_round :
      {n : ℕ} {ps : List Poll} (p : Poll) → IsFinal p → Enough m n ps → Enough m (suc n) (p ∷ ps)

final-Countable : (m : Mpi) (p : Poll) → IsFinal p → Countable m p
final-Countable m p f = subst (HasSize m) (sym f.quiet) tt

pub Enough-fewer : (m : Mpi) {n : ℕ} {ps : List Poll} → Enough m (suc n) ps → Enough m n ps
Enough-fewer m (other_round p c e) = other_round p c (Enough-fewer m e)
Enough-fewer m (final_round p f e) = other_round p (final-Countable m p f) e

both_true : (a b : Bool) → a ≡ true → b ≡ true → (a && b) ≡ true
both_true a b h k = ground arith

and_left : (a b : Bool) → (a && b) ≡ true → a ≡ true
and_left a b h = ground arith

module _ {U : Type 0} where
  pub progress_quiet :
      (m : Mpi) (p : Poll) (s : Nbx U) → p.probe ≡ none → progress m p s ≡ some (check_sends p s)
  unfolding progress
  progress_quiet m p s e =
      ap
        (λ o.
          let r : Option (Nbx U) = elim o [
            | none ↦ some (check_sends p s)
            | some msg ↦ on_message m p msg s
          ] in
          r)
        e

  pub progress_message :
      (m : Mpi) (p : Poll) (msg : Message) (s : Nbx U)
      → p.probe ≡ some msg
      → progress m p s ≡ on_message m p msg s
  unfolding progress
  progress_message m p msg s e =
      ap
        (λ o.
          let r : Option (Nbx U) = elim o [
            | none ↦ some (check_sends p s)
            | some msg' ↦ on_message m p msg' s
          ] in
          r)
        e

  progress-some_at :
      (m : Mpi) (p : Poll) (s : Nbx U) (o : Option Message)
      → p.probe ≡ o
      → HasSize m o
      → (t : Nbx U) × (progress m p s ≡ some t)
  unfolding on_message
  progress-some_at m p s none e c = (check_sends p s, progress_quiet m p s e)
  progress-some_at m p s (some msg) e (pr, c) =
      elim (Bool-cases (leb nqueue i || ignores (s.slots i).active)) [
        | inl b ↦ (s, progress_message m p msg s e ∙ rw b)
        | inr b ↦ (check_sends p (accept i msg pr s), progress_message m p msg s e ∙ rw (b, c))
      ]
    where
      i : ℕ
      i = slot_of_tag s.cnt_base msg.tag

  pub progress-some :
      (m : Mpi) (p : Poll) (s : Nbx U) → Countable m p → (t : Nbx U) × (progress m p s ≡ some t)
  progress-some m p s c = progress-some_at m p s p.probe refl c

  -- One round of the loop, once its polling is known
  wait_round :
      (m : Mpi) (j : ℕ) (p : Poll) (ps : List Poll) (s t : Nbx U)
      → progress m p s ≡ some t
      → wait_loop m j (p ∷ ps) s
        ≡ (elim (((nbx_report t).slots j).reached_bar_req && p.barrier_done) [
          | true ↦ some (nbx_report t, ps)
          | false ↦ wait_loop m j ps (nbx_report t)
        ])
  unfolding wait_loop
  wait_round m j p ps s t e = rw e

  round-same :
      (m : Mpi) (p : Poll) (s t : Nbx U) → progress m p s ≡ some t → SameExchange s (nbx_report t)
  round-same m p s t e =
      same_trans s t (nbx_report t) (progress-SameExchange m p s t e) (nbx_report-same t)

  enters_final :
      (j : ℕ) (p : Poll) (s : Nbx U)
      → (s.slots j).active ≡ nbx_unknown
      → p.all_sent j ≡ true
      → enters p s j ≡ true
  enters_final j p s a f = ground arith

  reached_step :
      (s t : Nbx U) (j : ℕ)
      → SameExchange s t
      → (s.slots j).reached_bar_req ≡ true
      → (t.slots j).reached_bar_req ≡ true
  reached_step s t j f h = ground (arith, f.reached j)

  final_reached :
      (m : Mpi) (j : ℕ) (p : Poll) (s : Nbx U)
      → j < 4
      → (s.slots j).active ≡ nbx_unknown
      → IsFinal p
      → ((nbx_report (check_sends p s)).slots j).reached_bar_req ≡ true
  final_reached m j p s lt a f =
      reached_step _ _ j (nbx_report-same (check_sends p s))
        (check_sends-enters p j s lt ∙ enters_final j p s a (f.sent j))

  wait_final :
      (m : Mpi) (j : ℕ) (p : Poll) (ps : List Poll) (s : Nbx U)
      → j < 4
      → (s.slots j).active ≡ nbx_unknown
      → IsFinal p
      → wait_loop m j (p ∷ ps) s ≡ some (nbx_report (check_sends p s), ps)
  wait_final m j p ps s lt a f =
      wait_round m j p ps s _ (progress_quiet m p s f.quiet)
      ∙ rw (both_true _ _ (final_reached m j p s lt a f) f.barrier)

  -- The loop of a wait at a position that awaits unknown senders ends: MPI's answers need only
  -- contain, after any rounds whose messages MPI can count, a round with no message left, the sends
  -- acknowledged and the barrier complete. Of `n` more such rounds, `n` are left to later loops.
  pub wait_loop-ends :
      (m : Mpi) (j n : ℕ) {ps : List Poll} (s : Nbx U)
      → j < 4
      → (s.slots j).active ≡ nbx_unknown
      → Enough m (suc n) ps
      → (r : Nbx U × List Poll) × (wait_loop m j ps s ≡ some r) × Enough m n r.1
  wait_loop-ends m j n s lt a (other_round {ps = ps} p c e) =
      let (t, h) = progress-some m p s c in
      let later = wait_loop-ends m j n (nbx_report t) lt ((round-same m p s t h).active j ∙ a) e in
      elim (Bool-cases (((nbx_report t).slots j).reached_bar_req && p.barrier_done)) [
        | inl b ↦ ((nbx_report t, ps), wait_round m j p ps s t h ∙ rw b, Enough-fewer m e)
        | inr b ↦ (later.0, wait_round m j p ps s t h ∙ rw b later.1, later.2)
      ]
  wait_loop-ends m j n s lt a (final_round {ps = ps} p f e) =
      ((nbx_report (check_sends p s), ps), wait_final m j p ps s lt a f, e)

  Entered : Nbx U → ℕ → Nbx U × List Poll → Type 0
  Entered s j r = SameExchange s r.0 × ((r.0.slots j).reached_bar_req ≡ true)

  wait_loop-Entered :
      (m : Mpi) (j : ℕ) (ps : List Poll) (s : Nbx U) → OnSome (Entered s j) (wait_loop m j ps s)
  unfolding wait_loop Entered
  wait_loop-Entered m j [] s = tt
  wait_loop-Entered m j (p ∷ ps) s =
      >>=-OnSome (Entered s j) (progress m p s) _
        λ t h. round t (round-same m p s t h) (wait_loop-Entered m j ps (nbx_report t))
    where
      later :
          (t : Nbx U) (o : Option (Nbx U × List Poll))
          → SameExchange s t
          → OnSome (Entered t j) o
          → OnSome (Entered s j) o
      later t none k e = tt
      later t (some r) k e = (same_trans s t r.0 k e.0, e.1)

      round :
          (t : Nbx U)
          → SameExchange s (nbx_report t)
          → OnSome (Entered (nbx_report t) j) (wait_loop m j ps (nbx_report t))
          → OnSome
              (Entered s j)
              (elim (((nbx_report t).slots j).reached_bar_req && p.barrier_done) [
                | true ↦ some (nbx_report t, ps)
                | false ↦ wait_loop m j ps (nbx_report t)
              ])
      round t k ih =
          elim (Bool-cases (((nbx_report t).slots j).reached_bar_req && p.barrier_done)) [
            | inl b ↦ rw b (k, and_left _ _ b)
            | inr b ↦ rw b (later (nbx_report t) _ k ih)
          ]

  -- What the loop leaves, whenever it ends: the exchange as it was, with the barrier entered.
  pub wait_loop-SameExchange :
      (m : Mpi) (j : ℕ) (ps : List Poll) (s : Nbx U) (r : Nbx U × List Poll)
      → wait_loop m j ps s ≡ some r
      → SameExchange s r.0 × ((r.0.slots j).reached_bar_req ≡ true)
  unfolding Entered
  wait_loop-SameExchange m j ps s r e = on_some (Entered s j) _ e (wait_loop-Entered m j ps s)
