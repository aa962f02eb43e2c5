-- ===== src/Nbx/Post.antt =====
-- Posting messages (VCluster/VCluster_base.hpp): send, recv, queue_all_sends, and the three calls
-- sendrecvMultipleMessagesNBXAsync.
use openfpm_vcluster.Prelude.{
  ℕ, zero, suc, ◌+◌, ◌-◌, ◌%◌, ◌^◌, Bool, true, false, ◌&&◌, ◌||◌, not, Option, none, some, List,
  [], ◌∷◌, length, ◌==◌, leb, if◌then◌else◌,
}
use openfpm_vcluster.Wire.{
  CType, isend_buffer, irecv_buffer, issend_buffer, isend_vector, irecv_vector,
}
use openfpm_vcluster.Tags.{nqueue, sparse_tag, known_tag, point_tag}
use openfpm_vcluster.Nbx.State.{
  nbx_unknown, nbx_known, nbx_known_prc, Ptr, buffer, size_cell, size_entry, Outgoing, Incoming,
  AllocArgs, MsgAlloc, isend, irecv, issend, complain, requests_in_progress, queue_full, Nbx, note,
  post, set_slot, log_send,
}

abbrev pub is_empty {ℓ} : {A : Type ℓ} → List A → Bool
is_empty [] = true
is_empty (x ∷ xs) = false

-- openfpm::vector::resize: entries past the old end hold no value yet, here 0.
unfoldable pub resize : ℕ → List ℕ → List ℕ
resize zero xs = []
resize (suc n) [] = 0 ∷ resize n []
resize (suc n) (x ∷ xs) = x ∷ resize n xs

module _ {U : Type 0} where
  unfoldable pub send : ℕ → ℕ → Ptr → ℕ → Nbx U → Nbx U
  send proc tag mem sz = post (isend proc (point_tag tag) mem (isend_buffer sz))

  unfoldable pub recv : ℕ → ℕ → Ptr → ℕ → Nbx U → Nbx U
  recv proc tag v sz = post (irecv proc (point_tag tag) v (irecv_buffer sz))

  -- The overloads for a vector of `n` elements of a C++ type
  unfoldable pub send_vector : ℕ → ℕ → CType → ℕ → ℕ → Nbx U → Nbx U
  send_vector proc tag c ptr n = post (isend proc (point_tag tag) (buffer ptr) (isend_vector c n))

  unfoldable pub recv_vector : ℕ → ℕ → CType → ℕ → ℕ → Nbx U → Nbx U
  recv_vector proc tag c ptr n = post (irecv proc (point_tag tag) (buffer ptr) (irecv_vector c n))

  -- The body of queue_all_sends' loop, for message `i`; NBX_prc_qcnt is `queued - 1` here.
  unfoldable pub queue_send : ℕ → Outgoing → Nbx U → Nbx U
  unfolding log_send
  queue_send i o s =
      if o.sz == 0
      then s
      else log_send o.prc (
          post
            (issend o.prc (sparse_tag s.nbx_cnt (s.queued - 1) i) (buffer o.ptr)
              (issend_buffer o.sz))
            (record s { tot_sent = (s.tot_sent + o.sz) % 2 ^ 64 }))

  unfoldable pub queue_sends : ℕ → List Outgoing → Nbx U → Nbx U
  queue_sends i [] s = s
  queue_sends i (o ∷ os) s = queue_sends (i + 1) os (queue_send i o s)

  unfoldable pub queue_all_sends : List Outgoing → Nbx U → Nbx U
  queue_all_sends outs s =
      let busy = not (s.stat == 0) || (not (is_empty s.req) && (s.queued == 1)) in
      let warned = if busy then note (complain requests_in_progress) s else s in
      let fresh = if s.queued == 1 then record warned { stat = 0; req = [] } else warned in
      queue_sends 0 outs fresh

  -- The loop over the messages to processes that know of them
  unfoldable pub send_all : ℕ → List Outgoing → Nbx U → Nbx U
  send_all tag [] s = s
  send_all tag (o ∷ os) s = send_all tag os (send o.prc tag (buffer o.ptr) o.sz s)

  -- The loop that allocates and receives the messages `i`, `i + 1`, …; `shown` is the tag that the
  -- call-back is told.
  unfoldable pub recv_one : ℕ → ℕ → MsgAlloc U → ℕ → ℕ → Incoming → Nbx U → Nbx U
  recv_one tag shown alloc arg i n s =
      let args : AllocArgs = record {
        msg_i = n.sz;
        total_msg = 0;
        total_p = 0;
        proc = n.prc;
        ri = i;
        tag = shown;
      } in
      let (ptr, mem) = alloc args arg s.mem in
      recv n.prc tag (buffer ptr) n.sz (record s { mem = mem })

  unfoldable pub recv_all : ℕ → ℕ → MsgAlloc U → ℕ → ℕ → List Incoming → Nbx U → Nbx U
  recv_all tag shown alloc arg i [] s = s
  recv_all tag shown alloc arg i (n ∷ ns) s =
      recv_all tag shown alloc arg (i + 1) ns (recv_one tag shown alloc arg i n s)

  -- The exchange of the sizes, where the receiver knows the senders but not the sizes
  unfoldable pub send_sizes : ℕ → ℕ → List Outgoing → Nbx U → Nbx U
  send_sizes tag i [] s = s
  send_sizes tag i (o ∷ os) s = send_sizes tag (i + 1) os (send o.prc tag (size_entry i) 8 s)

  unfoldable pub recv_sizes : ℕ → ℕ → List ℕ → Nbx U → Nbx U
  recv_sizes tag i [] s = s
  recv_sizes tag i (p ∷ ps) s = recv_sizes tag (i + 1) ps (recv p tag (size_cell i) 8 s)

  -- `if (NBX_prc_qcnt == 0) NBX_prc_cnt_base = NBX_cnt`
  unfoldable pub mark_base : Nbx U → Nbx U
  mark_base s = if s.queued == 1 then record s { cnt_base = s.nbx_cnt } else s

  abbrev pub enqueue : Nbx U → Nbx U
  enqueue s = record s { queued = s.queued + 1 }

  -- The unknown-receiver overload has no test of NQUEUE: past the last position it writes outside
  -- its arrays, which is `none`.
  unfoldable pub async_unknown : List Outgoing → MsgAlloc U → ℕ → Nbx U → Option (Nbx U)
  async_unknown outs alloc arg s =
      let q = s.queued in
      let t = queue_all_sends outs (enqueue s) in
      if leb nqueue q
      then none
      else some (
          mark_base (
            set_slot q
              (record (t.slots q) {
                active = nbx_unknown;
                rid = 0;
                reached_bar_req = false;
                msg_alloc = alloc;
                ptr_arg = arg;
              })
              t))

  unfoldable pub async_known : List Outgoing → List Incoming → MsgAlloc U → ℕ → Nbx U → Nbx U
  async_known outs ins alloc arg s =
      let q = s.queued in
      let tag = known_tag s.nbx_cnt in
      if leb nqueue q
      then note (complain queue_full) (enqueue s)
      else let t = recv_all tag tag alloc arg 0 ins (send_all tag outs (enqueue s)) in
        mark_base (set_slot q (record (t.slots q) { active = nbx_known }) t)

  unfoldable pub async_known_prc : List Outgoing → List ℕ → MsgAlloc U → ℕ → Nbx U → Nbx U
  async_known_prc outs prcs alloc arg s =
      let q = s.queued in
      let tag = known_tag s.nbx_cnt in
      if leb nqueue q
      then note (complain queue_full) (enqueue s)
      else let u = record (enqueue s) { sz_recv_tmp = resize (length prcs) s.sz_recv_tmp } in
        let t = recv_sizes tag 0 prcs (send_sizes tag 0 outs u) in
        mark_base (
          set_slot q
            (record (t.slots q) {
              active = nbx_known_prc;
              sends = outs;
              prc_recv = prcs;
              msg_alloc = alloc;
              ptr_arg = arg;
            })
            t)
