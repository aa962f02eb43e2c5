-- ===== src/Semantic/Alloc/Hearing.antt =====
-- What one round of polling adds to what the queued exchanges have received (VCluster/VCluster_base.hpp:
-- progressCommunication, with the call-back msg_alloc of VCluster/VCluster.hpp).
use openfpm_vcluster.Prelude.{
  ℕ, ◌≡◌, refl, sym, ap₂, subst, Bool, true, false, ◌||◌, not, Option, none, some, List, [], ◌∷◌,
  ◌++◌, OnSome, on_some, >>=-OnSome, update, leb, Bool-cases, inl, inr, if◌then◌else◌, arith, ◌>>=◌,
}
use openfpm_vcluster.Wire.{Mpi, Probed, probe_size}
use openfpm_vcluster.Tags.{nqueue, slot_of_tag, in_window}
use openfpm_vcluster.Nbx.State.{Nbx}
use openfpm_vcluster.Nbx.Progress.{
  Message, Poll, ignores, accept, check_sends, on_message, progress,
}
use openfpm_vcluster.Nbx.Frame.{SameExchange, right_false}
use openfpm_vcluster.Nbx.Completion.{progress_quiet, progress_message}
use openfpm_vcluster.Semantic.Reorder.Order.{Arrival}
use openfpm_vcluster.Semantic.Alloc.{Memory, fresh_buffer}
use openfpm_vcluster.Semantic.Alloc.Recording.{noted}
use openfpm_vcluster.Semantic.Alloc.Growth.{
  Received, Grows, nothing, Grows-refl, Grows-then, check_sends-Grows,
}
use openfpm_vcluster.Semantic.Alloc.Polling.{receive-Grows}

-- A message of `n` bytes in its vectors, before its bytes are there
abbrev pub announced : Message → ℕ → Arrival
announced msg n = record { proc = msg.source; tag = msg.tag; buf = fresh_buffer n; sz = n }

-- A message with the size that MPI counts is received by the position that its tag decodes to.
abbrev pub heard_sized : Message → Nbx Memory → Option Probed → ℕ → List Arrival
heard_sized msg s none = nothing
heard_sized msg s (some pr) =
    update nothing (slot_of_tag s.cnt_base msg.tag) (announced msg pr.msize ∷ [])

-- It is left alone, if it is for a position that does not await unknown senders, or its tag is not
-- in the window of the tags in use.
abbrev pub heard_message : Mpi → Message → Nbx Memory → ℕ → List Arrival
heard_message m msg s =
    let i = slot_of_tag s.cnt_base msg.tag in
    if leb nqueue i || ignores (s.slots i).active || not (in_window s.cnt_base s.queued msg.tag)
    then nothing
    else heard_sized msg s (probe_size m msg.bytes)

-- What comes at each position in a round of polling
abbrev pub heard_probe : Mpi → Option Message → Nbx Memory → ℕ → List Arrival
heard_probe m none s = nothing
heard_probe m (some msg) s = heard_message m msg s

abbrev pub heard : Mpi → Poll → Nbx Memory → ℕ → List Arrival
heard m p = heard_probe m p.probe

-- What comes in several rounds
abbrev pub heard_all : Mpi → List Poll → Nbx Memory → ℕ → List Arrival
heard_all m [] s = nothing
heard_all m (p ∷ ps) s = λ j. heard m p s j ++ heard_all m ps s j

-- All of it is for the exchange that the rounds are polled in.
heard_message-same :
    (m : Mpi) (msg : Message) (s t : Nbx Memory)
    → SameExchange s t
    → heard_message m msg t ≡ heard_message m msg s
heard_message-same m msg s t e =
    rw (e.base, e.queued, e.active (slot_of_tag s.cnt_base msg.tag)) refl

heard_probe-same :
    (m : Mpi) (o : Option Message) (s t : Nbx Memory)
    → SameExchange s t
    → heard_probe m o t ≡ heard_probe m o s
heard_probe-same m none s t e = refl
heard_probe-same m (some msg) s t e = heard_message-same m msg s t e

pub heard_all-same :
    (m : Mpi) (ps : List Poll) (s t : Nbx Memory)
    → SameExchange s t
    → heard_all m ps t ≡ heard_all m ps s
heard_all-same m [] s t e = refl
heard_all-same m (p ∷ ps) s t e =
    ap₂ (λ (x y : ℕ → List Arrival). λ j. x j ++ y j) (heard_probe-same m p.probe s t e)
      (heard_all-same m ps s t e)

-- What the guard of heard_message says of the code's two tests
taken_in : (a b c : Bool) → (a || b) ≡ false → c ≡ true → (a || b || not c) ≡ false
taken_in a b c h k = ground arith

left_alone : (a b c : Bool) → (a || b) ≡ true → (a || b || not c) ≡ true
left_alone a b c h = ground arith

out_of_window : (a b c : Bool) → c ≡ false → (a || b || not c) ≡ true
out_of_window a b c h = ground arith

module _ (m : Mpi) (p : Poll) (msg : Message) (s : Nbx Memory) where
  abbrev slot : ℕ
  slot = slot_of_tag s.cnt_base msg.tag

  abbrev passed : Bool
  passed = leb nqueue slot || ignores (s.slots slot).active

  accept-Grows :
      (pr : Probed)
      → probe_size m msg.bytes ≡ some pr
      → passed ≡ false
      → Grows (heard_message m msg s) s (accept slot msg pr s)
  unfolding accept noted
  accept-Grows pr q e = elim (Bool-cases (in_window s.cnt_base s.queued msg.tag)) [
    | inl w ↦ rw (taken_in _ _ _ e w, q, w) (receive-Grows slot msg pr s (right_false _ _ e))
    | inr w ↦
        rw (out_of_window (leb nqueue slot) (ignores (s.slots slot).active) _ w, w) (Grows-refl s)
  ]

  on_message_counted :
      passed ≡ false
      → on_message m p msg s
        ≡ (probe_size m msg.bytes >>= λ pr. some (check_sends p (accept slot msg pr s)))
  unfolding on_message
  on_message_counted e = rw e refl

  on_message-Grows : OnSome (Grows (heard_message m msg s) s) (on_message m p msg s)
  unfolding on_message
  on_message-Grows = elim (Bool-cases passed) [
    | inl e ↦ rw (left_alone _ _ (in_window s.cnt_base s.queued msg.tag) e, e) (Grows-refl s)
    | inr e ↦ subst (OnSome (Grows (heard_message m msg s) s)) (sym (on_message_counted e)) (
        >>=-OnSome (Grows (heard_message m msg s) s) (probe_size m msg.bytes) _ λ pr q.
          Grows-then (heard_message m msg s) s _ _ (accept-Grows pr q e) (check_sends-Grows p _))
  ]

progress-Grows_at :
    (m : Mpi) (p : Poll) (s : Nbx Memory) (o : Option Message)
    → p.probe ≡ o
    → OnSome (Grows (heard_probe m o s) s) (progress m p s)
progress-Grows_at m p s none e = rw (progress_quiet m p s e) (check_sends-Grows p s)
progress-Grows_at m p s (some msg) e =
    rw (progress_message m p msg s e) (on_message-Grows m p msg s)

pub progress-Grows :
    (m : Mpi) (p : Poll) (s t : Nbx Memory) → progress m p s ≡ some t → Grows (heard m p s) s t
progress-Grows m p s t e =
    on_some (Grows (heard m p s) s) _ e (progress-Grows_at m p s p.probe refl)

-- In one round of polling, whatever MPI answers, what the queued exchanges have received so far
-- stays in their vectors, and behind it comes the message that MPI shows, exactly if it decodes to a
-- position of the queue that awaits unknown senders and its tag is in the window of the tags in use,
-- and at that position alone: at each such position the buffers, senders, sizes and tags stay in step
-- with one another and with the position's count of messages. This is where each such position has
-- vectors of its own, and msg_alloc as its call-back.
pub progress-Received :
    (m : Mpi) (p : Poll) (s t : Nbx Memory) (rs : ℕ → List Arrival)
    → progress m p s ≡ some t
    → Received rs s
    → Received (λ j. rs j ++ heard m p s j) t
progress-Received m p s t rs e h = (progress-Grows m p s t e rs h).0
