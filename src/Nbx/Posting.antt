-- ===== src/Nbx/Posting.antt =====
-- What queue_all_sends posts (VCluster/VCluster_base.hpp).
use openfpm_vcluster.Prelude.{
  ℕ, ◌+◌, ◌-◌, ◌%◌, ◌^◌, ◌<◌, ◌≡◌, refl, sym, ◌∙◌, true, false, List, [], ◌∷◌, ◌++◌, ◌==◌,
  if◌then◌else◌, Bool-cases, inl, inr, arith, append-nil, append_assoc,
}
use openfpm_vcluster.Nbx.Requests.{SameQueue, queue_refl, queue_trans}
use openfpm_vcluster.Wire.{issend_buffer}
use openfpm_vcluster.Tags.{sparse_tag}
use openfpm_vcluster.Nbx.State.{buffer, Outgoing, Call, issend, Nbx, log_send}
use openfpm_vcluster.Nbx.Post.{queue_send, queue_sends}

-- The messages that are not empty, each with its place in the caller's arrays.
abbrev pub sparse_calls : ℕ → ℕ → ℕ → List Outgoing → List Call
sparse_calls cnt q i [] = []
sparse_calls cnt q i (o ∷ os) =
    let rest = sparse_calls cnt q (i + 1) os in
    if o.sz == 0
    then rest
    else issend o.prc (sparse_tag cnt q i) (buffer o.ptr) (issend_buffer o.sz) ∷ rest

abbrev pub destinations : List Outgoing → List ℕ
destinations [] = []
destinations (o ∷ os) = let rest = destinations os in if o.sz == 0 then rest else o.prc ∷ rest

abbrev pub total : List Outgoing → ℕ
total [] = 0
total (o ∷ os) = o.sz + total os

module _ {U : Type 0} where
  -- `s` with the messages posted that `cnt`, `q` and `i` number
  abbrev pub with_posted : ℕ → ℕ → ℕ → List Outgoing → Nbx U → Nbx U
  with_posted cnt q i outs s = record s {
    req = s.req ++ sparse_calls cnt q i outs;
    calls = s.calls ++ sparse_calls cnt q i outs;
    s_log = s.s_log ++ destinations outs;
    tot_sent = (s.tot_sent + total outs) % 2 ^ 64;
  }

  abbrev sent_one : ℕ → Outgoing → Nbx U → Nbx U
  sent_one i o s =
      let c =
        issend o.prc (sparse_tag s.nbx_cnt (s.queued - 1) i) (buffer o.ptr) (issend_buffer o.sz) in
      record s {
        req = s.req ++ c ∷ [];
        calls = s.calls ++ c ∷ [];
        s_log = s.s_log ++ o.prc ∷ [];
        tot_sent = (s.tot_sent + o.sz) % 2 ^ 64;
      }

  refilled :
      (s : Nbx U) {r r' c c' : List Call} {l l' : List ℕ} {t t' : ℕ}
      → r ≡ r'
      → c ≡ c'
      → l ≡ l'
      → t ≡ t'
      → ◌≡◌ {A = Nbx U}
          (record s { req = r; calls = c; s_log = l; tot_sent = t })
          (record s { req = r'; calls = c'; s_log = l'; tot_sent = t' })
  refilled s p q l t = λ i. record s { req = p i; calls = q i; s_log = l i; tot_sent = t i }

  sent_one-SameQueue : (i : ℕ) (o : Outgoing) (s : Nbx U) → SameQueue s (sent_one i o s)
  sent_one-SameQueue i o s = record {
    cnt = refl;
    cycle = refl;
    base = refl;
    queued = refl;
    stat = refl;
    sizes = refl;
    slots = refl;
  }

  queue_send_zero : (i : ℕ) (o : Outgoing) (s : Nbx U) → (o.sz == 0) ≡ true → queue_send i o s ≡ s
  unfolding queue_send
  queue_send_zero i o s e = rw e

  queue_send_pos :
      (i : ℕ) (o : Outgoing) (s : Nbx U) → (o.sz == 0) ≡ false → queue_send i o s ≡ sent_one i o s
  unfolding queue_send log_send
  queue_send_pos i o s e = rw e

  pub queue_sends-with_posted :
      (i : ℕ) (outs : List Outgoing) (s : Nbx U)
      → s.tot_sent < 2 ^ 64
      → queue_sends i outs s ≡ with_posted s.nbx_cnt (s.queued - 1) i outs s
  unfolding queue_sends
  queue_sends-with_posted i [] s h =
      refilled s (sym (append-nil s.req)) (sym (append-nil s.calls)) (sym (append-nil s.s_log))
        (omega arith)
  queue_sends-with_posted i (o ∷ os) s h = elim (Bool-cases (o.sz == 0)) [
    | inl e ↦
        rw (queue_send_zero i o s e)
          (queue_sends-with_posted (i + 1) os s h ∙ rw e (refilled s refl refl refl (ground arith)))
    | inr e ↦ rw (queue_send_pos i o s e) (
        queue_sends-with_posted (i + 1) os (sent_one i o s) (omega arith)
        ∙ rw e (
            refilled s (append_assoc s.req _ _) (append_assoc s.calls _ _)
              (append_assoc s.s_log _ _) (omega arith)))
  ]

  pub queue_sends-SameQueue :
      (i : ℕ) (outs : List Outgoing) (s : Nbx U) → SameQueue s (queue_sends i outs s)
  unfolding queue_sends
  queue_sends-SameQueue i [] s = queue_refl s
  queue_sends-SameQueue i (o ∷ os) s = elim (Bool-cases (o.sz == 0)) [
    | inl e ↦ rw (queue_send_zero i o s e) (queue_sends-SameQueue (i + 1) os s)
    | inr e ↦
        rw (queue_send_pos i o s e)
          (queue_trans _ _ _ (sent_one-SameQueue i o s) (queue_sends-SameQueue (i + 1) os _))
  ]
