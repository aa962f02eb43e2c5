-- ===== src/Nbx/Queue.antt =====
-- Queueing asynchronous calls (VCluster/VCluster_base.hpp, sendrecvMultipleMessagesNBXAsync).
use openfpm_vcluster.Prelude.{
  ℕ, ◌+◌, ◌-◌, ◌^◌, ◌≤◌, ◌<◌, ◌≡◌, ap, ◌∙◌, true, false, none, some, List, [], ◌∷◌, ◌++◌, length,
  ◌==◌, All, if◌then◌else◌, Bool-cases, inl, inr, arith, lt→leb, le→leb,
}
use openfpm_vcluster.Wire.{issend_buffer}
use openfpm_vcluster.Tags.{nqueue, tag_span, sparse_tag, slot_of_tag, in_window}
use openfpm_vcluster.Tags.Decoding.{slot_of_tag-sparse_tag}
use openfpm_vcluster.Nbx.State.{
  nbx_unknown, buffer, Call, issend, complain, queue_full, Nbx, Outgoing, Incoming, MsgAlloc, note,
  set_slot,
}
use openfpm_vcluster.Nbx.Post.{
  queue_all_sends, enqueue, mark_base, async_unknown, async_known, async_known_prc,
}
use openfpm_vcluster.Nbx.Posting.{sparse_calls, with_posted}
use openfpm_vcluster.Nbx.Opening.{IsQuiet, queue_all_sends-with_posted}

-- A message that is posted decodes, at a process whose queue started at the same NBX_cnt, to
-- position `q` of its queue.
abbrev pub DecodesTo : ℕ → ℕ → Call → Type 0
DecodesTo base q (issend p tag ptr t) =
    (slot_of_tag base tag ≡ q) × (in_window base (q + 1) tag ≡ true)
DecodesTo base q _ = ⊥

sparse_calls-DecodesTo :
    (cnt q i : ℕ) (outs : List Outgoing)
    → i + length outs ≤ tag_span
    → cnt + q < 2147483648
    → All (DecodesTo cnt q) (sparse_calls cnt q i outs)
sparse_calls-DecodesTo cnt q i [] h b = tt
sparse_calls-DecodesTo cnt q i (o ∷ os) h b =
    let rest = sparse_calls-DecodesTo cnt q (i + 1) os (omega arith) b in
    let d =
      slot_of_tag-sparse_tag cnt cnt q i (q + 1) (omega arith) (omega arith) b (omega arith) in
    let here : DecodesTo cnt q
        (issend o.prc (sparse_tag cnt q i) (buffer o.ptr) (issend_buffer o.sz)) =
      (d.0 ∙ omega arith, d.1) in
    elim (Bool-cases (o.sz == 0)) [ inl e ↦ rw e rest | inr e ↦ rw e (here, rest) ]

module _ {U : Type 0} where
  abbrev pub placed : MsgAlloc U → ℕ → ℕ → Nbx U → Nbx U
  placed alloc arg q t =
      set_slot q
        (record (t.slots q) {
          active = nbx_unknown;
          rid = 0;
          reached_bar_req = false;
          msg_alloc = alloc;
          ptr_arg = arg;
        })
        t

  pub mark_base_keeps :
      (t : Nbx U)
      → ((mark_base t).queued ≡ t.queued)
        × ((mark_base t).nbx_cnt ≡ t.nbx_cnt)
        × ((mark_base t).req ≡ t.req)
        × ((mark_base t).slots ≡ t.slots)
        × ((mark_base t).cnt_base ≡ (if t.queued == 1 then t.nbx_cnt else t.cnt_base))
  unfolding mark_base
  mark_base_keeps t = (ground arith, ground arith, ground arith, ground arith, ground arith)

  posted :
      (outs : List Outgoing) (s : Nbx U)
      → IsQuiet (enqueue s)
      → s.tot_sent < 2 ^ 64
      → queue_all_sends outs (enqueue s) ≡ with_posted s.nbx_cnt s.queued 0 outs (enqueue s)
  posted outs s q h =
      let e : s.queued + 1 - 1 ≡ s.queued = omega arith in
      queue_all_sends-with_posted outs (enqueue s) q h
      ∙ ap (λ n. with_posted s.nbx_cnt n 0 outs (enqueue s)) e

  pub placed_at :
      (outs : List Outgoing) (alloc : MsgAlloc U) (arg : ℕ) (s : Nbx U)
      → s.queued < nqueue
      → async_unknown outs alloc arg s
        ≡ some (mark_base (placed alloc arg s.queued (queue_all_sends outs (enqueue s))))
  unfolding async_unknown
  placed_at outs alloc arg s l = rw (lt→leb nqueue s.queued l)

  -- An asynchronous call with unknown receivers, made where at most three calls are queued and no
  -- other request is under way: it takes the next position of the queue, posts its messages after
  -- the requests of the calls before it, and leaves the other positions as they were. The first
  -- call of a queue records NBX_cnt as the queue's base.
  pub async_unknown-queues :
      (outs : List Outgoing) (alloc : MsgAlloc U) (arg : ℕ) (s : Nbx U)
      → s.queued < nqueue
      → IsQuiet (enqueue s)
      → s.tot_sent < 2 ^ 64
      → (t : Nbx U) × (async_unknown outs alloc arg s ≡ some t)
        × (t.queued ≡ s.queued + 1)
        × (t.nbx_cnt ≡ s.nbx_cnt)
        × (t.req ≡ s.req ++ sparse_calls s.nbx_cnt s.queued 0 outs)
        × (t.cnt_base ≡ (if s.queued == 0 then s.nbx_cnt else s.cnt_base))
        × ((k : ℕ)
            → (t.slots k).active ≡ (if k == s.queued then nbx_unknown else (s.slots k).active))
  async_unknown-queues outs alloc arg s l q h =
      let p = placed alloc arg s.queued (with_posted s.nbx_cnt s.queued 0 outs (enqueue s)) in
      let k = mark_base_keeps p in
      (
        mark_base p,
        placed_at outs alloc arg s l
            ∙ ap (λ t. some (mark_base (placed alloc arg s.queued t))) (posted outs s q h),
        k.0,
        k.1,
        k.2,
        k.4 ∙ ground arith,
        λ x. rw k.3 (ground arith),
      )

  async_unknown_overflows :
      (outs : List Outgoing) (alloc : MsgAlloc U) (arg : ℕ) (s : Nbx U)
      → nqueue ≤ s.queued
      → async_unknown outs alloc arg s ≡ none
  unfolding async_unknown
  async_unknown_overflows outs alloc arg s l = rw (le→leb nqueue s.queued l)

  -- A fifth asynchronous call is refused with a complaint where the receivers are known, and sends
  -- nothing, but writes past the class's arrays where they are not.
  async_fifth :
      (outs : List Outgoing) (ins : List Incoming) (prcs : List ℕ) (alloc : MsgAlloc U) (arg : ℕ)
      (s : Nbx U)
      → nqueue ≤ s.queued
      → (async_known outs ins alloc arg s ≡ note (complain queue_full) (enqueue s))
        × (async_known_prc outs prcs alloc arg s ≡ note (complain queue_full) (enqueue s))
        × (async_unknown outs alloc arg s ≡ none)
  unfolding async_known async_known_prc
  async_fifth outs ins prcs alloc arg s l =
      let e = le→leb nqueue s.queued l in (rw e, rw e, async_unknown_overflows outs alloc arg s l)

-- All messages of a call, at most 131072 of them, decode at a process whose queue started at the
-- same NBX_cnt to the position of the queue at which the sender made the call, and are in the
-- window of the tags in use there if that process has made as many calls.
pub posted-DecodesTo :
    (cnt q : ℕ) (outs : List Outgoing)
    → length outs ≤ tag_span
    → cnt + q < 2147483648
    → All (DecodesTo cnt q) (sparse_calls cnt q 0 outs)
posted-DecodesTo cnt q outs h b = sparse_calls-DecodesTo cnt q 0 outs (omega arith) b
