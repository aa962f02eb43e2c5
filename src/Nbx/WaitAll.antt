-- ===== src/Nbx/WaitAll.antt =====
-- What sendrecvMultipleMessagesNBXWait leaves (VCluster/VCluster_base.hpp).
use native.Mathlib.Nat.{mod-add-mod, mod-eq_of_lt, mod-lt}
use openfpm_vcluster.Prelude.{
  ℕ, zero, suc, ◌+◌, ◌%◌, ◌≤◌, ◌<◌, ◌≡◌, refl, sym, ap, ◌∙◌, Bool, true, false, ◌&&◌, some, [], ltb,
  leb, if◌then◌else◌, arith, OnSome, on_some, >>=-OnSome, OnSome-mono,
}
use openfpm_vcluster.Wire.{Mpi}
use openfpm_vcluster.Tags.{nqueue}
use openfpm_vcluster.Nbx.State.{NbxType, nbx_unactive, nbx_unknown, nbx_known, nbx_known_prc, Nbx}
use openfpm_vcluster.Nbx.Wait.{
  Answers, finish_known, continue_known_prc, wait_slot, wait_slots, nbx_wait,
}
use openfpm_vcluster.Nbx.WaitSlot.{
  Finished, Continued, finish_known-Finished, finish_unknown-Finished, continue_known_prc-Continued,
  Continued-Finished,
}

-- The steps of NBX_cnt that a position takes, by its state
abbrev pub steps : NbxType → ℕ
steps nbx_unactive = 0
steps nbx_unknown = 1
steps nbx_known = 1
steps nbx_known_prc = 2

abbrev pub is_unactive : NbxType → Bool
is_unactive nbx_unactive = true
is_unactive _ = false

one_more : (a b n c : ℕ) → ((a + b) % c + n) % c ≡ (a + (b + n)) % c
one_more a b n c = mod-add-mod (a + b) c n ∙ ap (λ (x : ℕ). x % c) (omega arith)

-- Whether `k` is one of the `n` positions from `j` on
abbrev pub covers : ℕ → ℕ → ℕ → Bool
covers n j k = leb j k && ltb k (j + n)

module _ {U : Type 0} where
  -- The positions `j`, `j + 1`, …, `n` of them: the steps that they take together, and whether
  -- none of them is in use.
  abbrev pub steps_from : ℕ → ℕ → Nbx U → ℕ
  steps_from zero j s = 0
  steps_from (suc n) j s = steps (s.slots j).active + steps_from n (j + 1) s

  abbrev pub idle_from : ℕ → ℕ → Nbx U → Bool
  idle_from zero j s = true
  idle_from (suc n) j s = is_unactive (s.slots j).active && idle_from n (j + 1) s

  -- The exchanges at `n` positions from `j` on are over.
  pub record Completed (n j : ℕ) (s t : Nbx U) : Type 0 where
    pub cnt : t.nbx_cnt ≡ (s.nbx_cnt + steps_from n j s) % s.nbx_cycle
    pub cycle : t.nbx_cycle ≡ s.nbx_cycle
    pub req : t.req ≡ (if idle_from n j s then s.req else [])
    pub active :
        (k : ℕ) → (t.slots k).active ≡ (if covers n j k then nbx_unactive else (s.slots k).active)

  Finished-Completed :
      (s : Nbx U) (j n : ℕ) (t : Nbx U)
      → is_unactive (s.slots j).active ≡ false
      → steps (s.slots j).active ≡ n
      → Finished s j n t
      → Completed 1 j s t
  Finished-Completed s j n t b e f = record {
    cnt = f.cnt ∙ ap (λ (x : ℕ). (s.nbx_cnt + x) % s.nbx_cycle) (omega arith);
    cycle = f.cycle;
    req = f.req ∙ rw b;
    active = λ k. ground (arith, f.active k);
  }

  idle-Completed :
      (s : Nbx U) (j : ℕ)
      → (s.slots j).active ≡ nbx_unactive
      → s.nbx_cnt < s.nbx_cycle
      → Completed 1 j s s
  idle-Completed s j e h = record {
    cnt = sym (mod-eq_of_lt h) ∙ ap (λ (x : ℕ). x % s.nbx_cycle) (rw e (omega arith));
    cycle = refl;
    req = rw e;
    active = λ k. ground (arith, e);
  }

  pub wait_slot-Completed_at :
      (m : Mpi) (j : ℕ) (a : Answers) (s : Nbx U) (x : NbxType)
      → (s.slots j).active ≡ x
      → s.nbx_cnt < s.nbx_cycle
      → OnSome (λ r. Completed 1 j s r.0) (wait_slot m j a s)
  unfolding wait_slot
  wait_slot-Completed_at m j a s nbx_unactive e h = rw (e, wait_slot) (idle-Completed s j e h)
  wait_slot-Completed_at m j a s nbx_unknown e h =
      rw (e, wait_slot)
        (OnSome-mono (λ r. Finished s j 1 r.0) _ _
          (λ r f. Finished-Completed s j 1 r.0 (rw e) (rw e) f)
          (finish_unknown-Finished m j a.polls s))
  wait_slot-Completed_at m j a s nbx_known e h =
      rw (e, wait_slot)
        (>>=-OnSome _ (finish_known j (a.sizes j) s) _ λ t q.
          Finished-Completed s j 1 t (rw e) (rw e)
            (on_some (Finished s j 1) _ q (finish_known-Finished j (a.sizes j) s)))
  wait_slot-Completed_at m j a s nbx_known_prc e h =
      rw (e, wait_slot)
        (>>=-OnSome _ (continue_known_prc j (a.sizes j) s) _ λ t q.
          >>=-OnSome _ (finish_known j [] t) _ λ u r. Finished-Completed s j 2 u (rw e) (rw e) (
            Continued-Finished s j t u
              (on_some (Continued s j) _ q (continue_known_prc-Continued j (a.sizes j) s))
              (on_some (Finished t j 1) _ r (finish_known-Finished j [] t))))

  steps_from-cong :
      (n i : ℕ) (s t : Nbx U)
      → ((k : ℕ) → i ≤ k → (t.slots k).active ≡ (s.slots k).active)
      → steps_from n i t ≡ steps_from n i s
  steps_from-cong zero i s t h = refl
  steps_from-cong (suc n) i s t h =
      rw (h i (omega arith), steps_from-cong n (i + 1) s t (λ k l. h k (omega arith)))

  idle_from-cong :
      (n i : ℕ) (s t : Nbx U)
      → ((k : ℕ) → i ≤ k → (t.slots k).active ≡ (s.slots k).active)
      → idle_from n i t ≡ idle_from n i s
  idle_from-cong zero i s t h = refl
  idle_from-cong (suc n) i s t h =
      rw (h i (omega arith), idle_from-cong n (i + 1) s t (λ k l. h k (omega arith)))

  later_same :
      (s : Nbx U) (j : ℕ) (t : Nbx U)
      → Completed 1 j s t
      → (k : ℕ) → j + 1 ≤ k
      → (t.slots k).active ≡ (s.slots k).active
  later_same s j t f k h = ground (arith, f.active k)

  Completed-append :
      (n j : ℕ) (s t u : Nbx U)
      → Completed 1 j s t
      → Completed n (j + 1) t u
      → Completed (suc n) j s u
  Completed-append n j s t u f g =
      let st = steps_from-cong n (j + 1) s t (later_same s j t f) in
      let id = idle_from-cong n (j + 1) s t (later_same s j t f) in
      record {
        cnt =
            g.cnt
            ∙ rw (st, f.cycle, f.cnt)
                (one_more s.nbx_cnt (steps_from 1 j s) (steps_from n (j + 1) s) s.nbx_cycle
                  ∙ ap (λ (x : ℕ). (s.nbx_cnt + x) % s.nbx_cycle) (omega arith));
        cycle = g.cycle ∙ f.cycle;
        req = g.req ∙ ground (arith, id, f.req);
        active = λ k. ground (arith, f.active k, g.active k);
      }

  pub Completed-lt :
      (n j : ℕ) (s t : Nbx U) → 0 < s.nbx_cycle → Completed n j s t → t.nbx_cnt < t.nbx_cycle
  Completed-lt n j s t h f = rw (f.cnt, f.cycle) (mod-lt (s.nbx_cnt + steps_from n j s) h)

  nothing-Completed : (j : ℕ) (s : Nbx U) → s.nbx_cnt < s.nbx_cycle → Completed zero j s s
  nothing-Completed j s h = record {
    cnt = sym (mod-eq_of_lt h) ∙ ap (λ (x : ℕ). x % s.nbx_cycle) (omega arith);
    cycle = refl;
    req = refl;
    active = λ k. ground arith;
  }

  wait_slots-Completed :
      (m : Mpi) (n j : ℕ) (a : Answers) (s : Nbx U)
      → s.nbx_cnt < s.nbx_cycle
      → OnSome (Completed n j s) (wait_slots m n j a s)
  unfolding wait_slots
  wait_slots-Completed m zero j a s h = nothing-Completed j s h
  wait_slots-Completed m (suc n) j a s h =
      >>=-OnSome (Completed (suc n) j s) (wait_slot m j a s) _ λ r e.
        let f = on_some (λ r. Completed 1 j s r.0) _ e (wait_slot-Completed_at m j a s _ refl h) in
        OnSome-mono (Completed n (j + 1) r.0) _ _ (λ u g. Completed-append n j s r.0 u f g)
          (wait_slots-Completed m n (j + 1) (record a { polls = r.1 }) r.0
            (Completed-lt 1 j s r.0 (omega arith) f))

  -- When a wait returns, whatever MPI answered: no call is queued, all four positions of the queue
  -- are free, NBX_cnt has made its step for each exchange (two where sizes were exchanged first) in
  -- its cycle, and no request is left unless no exchange was queued at all.
  pub nbx_wait-Completed :
      (m : Mpi) (a : Answers) (s t : Nbx U)
      → s.nbx_cnt < s.nbx_cycle
      → nbx_wait m a s ≡ some t
      → (t.queued ≡ 0) × Completed 4 0 s t
  unfolding nbx_wait
  nbx_wait-Completed m a s t h e =
      on_some (λ u. (u.queued ≡ 0) × Completed 4 0 s u) _ e
        (>>=-OnSome _ (wait_slots m nqueue 0 a s) _ λ u q.
          let f = on_some (Completed 4 0 s) _ q (wait_slots-Completed m 4 0 a s h) in
          (refl, record { cnt = f.cnt; cycle = f.cycle; req = f.req; active = f.active }))
