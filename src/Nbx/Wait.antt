-- ===== src/Nbx/Wait.antt =====
-- Completing exchanges (VCluster/VCluster_base.hpp): execute, the calls
-- sendrecvMultipleMessagesNBX that return when the exchange is over, and
-- sendrecvMultipleMessagesNBXWait.
use openfpm_vcluster.Prelude.{
  ℕ, zero, suc, ◌+◌, true, false, ◌&&◌, Option, none, some, List, [], ◌∷◌, length, set, ◌==◌,
  if◌then◌else◌, ◌>>=◌,
}
use openfpm_vcluster.Wire.{Mpi}
use openfpm_vcluster.Tags.{nqueue, known_tag, next_cnt}
use openfpm_vcluster.Nbx.State.{
  nbx_unactive, nbx_unknown, nbx_known, nbx_known_prc, size_cell, Outgoing, Incoming, MsgAlloc,
  Call, irecv, waitall, complain, asynchronous_running, Nbx, note, set_slot, set_active, log_clear,
  nbx_report,
}
use openfpm_vcluster.Nbx.Post.{
  is_empty, resize, queue_all_sends, send_all, recv_all, send_sizes, recv_sizes, enqueue,
}
use openfpm_vcluster.Nbx.Progress.{Poll, progress}

-- The entry of sz_recv_tmp that a request writes, if it writes one
abbrev pub cell_of : Call → Option ℕ
cell_of (irecv p t (size_cell i) tr) = some i
cell_of _ = none

-- What MPI_Waitall writes to sz_recv_tmp: the values arrive in the order of the requests.
unfoldable pub deliver : List Call → List ℕ → List ℕ → List ℕ
deliver [] vs cells = cells
deliver (c ∷ cs) [] cells = cells
deliver (c ∷ cs) (v ∷ vs) cells = elim (cell_of c) [
  | some i ↦ deliver cs vs (set cells i v)
  | none ↦ deliver cs (v ∷ vs) cells
]

-- The receives of known senders, with the sizes that sz_recv_tmp holds; `none` reads past its end.
unfoldable pub with_sizes : List ℕ → List ℕ → Option (List Incoming)
with_sizes [] sizes = some []
with_sizes (p ∷ ps) [] = none
with_sizes (p ∷ ps) (z ∷ zs) = with_sizes ps zs >>= λ ins. some (record { prc = p; sz = z } ∷ ins)

-- What MPI answers during a wait: the polling rounds, the values that the Waitall calls write to
-- sz_recv_tmp, by the position of the queue, and the bytes that it writes to the receive buffers of
-- each vector, in the order of the buffers, for a memory that has them.
pub record Answers : Type 0 where
  pub polls : List Poll
  pub sizes : ℕ → List ℕ
  pub contents : ℕ → List (List ℕ)

module _ {U : Type 0} where
  unfoldable pub execute : List ℕ → Nbx U → Nbx U
  execute vs s =
      if is_empty s.req
      then s
      else note (waitall (length s.req))
          (record s { sz_recv_tmp = deliver s.req vs s.sz_recv_tmp; req = []; stat = 0 })

  -- NBX_cnt = (NBX_cnt + 1) % nbx_cycle
  unfoldable pub advance : Nbx U → Option (Nbx U)
  advance s = next_cnt s.nbx_cycle s.nbx_cnt >>= λ c. some (record s { nbx_cnt = c })

  -- The receiver knows senders and sizes.
  unfoldable pub sync_known :
      List Outgoing → List Incoming → MsgAlloc U → ℕ → List ℕ → Nbx U → Option (Nbx U)
  sync_known outs ins alloc arg vs s =
      let tag = known_tag s.nbx_cnt in
      advance (execute vs (recv_all tag tag alloc arg 0 ins (send_all tag outs s)))

  -- The second half of an exchange whose sizes were exchanged first
  unfoldable pub exchange_sized : List Outgoing → List ℕ → MsgAlloc U → ℕ → Nbx U → Option (Nbx U)
  exchange_sized outs prcs alloc arg s =
      let tag = known_tag s.nbx_cnt in
      with_sizes prcs s.sz_recv_tmp >>= λ ins.
      some (recv_all tag 0 alloc arg 0 ins (send_all tag outs s))

  -- The receiver knows the senders.
  unfoldable pub sync_known_prc :
      List Outgoing → List ℕ → MsgAlloc U → ℕ → List ℕ → Nbx U → Option (Nbx U)
  sync_known_prc outs prcs alloc arg vs s =
      let tag = known_tag s.nbx_cnt in
      let t = record s { sz_recv_tmp = resize (length prcs) s.sz_recv_tmp } in
      advance (execute vs (recv_sizes tag 0 prcs (send_sizes tag 0 outs t))) >>= λ u.
      exchange_sized outs prcs alloc arg u >>= λ w. advance (execute [] w)

  -- The do-while loop for position `j`. `none` is an answer list that ends before the loop does.
  unfoldable pub wait_loop : Mpi → ℕ → List Poll → Nbx U → Option (Nbx U × List Poll)
  wait_loop m j [] s = none
  wait_loop m j (p ∷ ps) s = progress m p s >>= λ t.
      let u = nbx_report t in
      elim ((u.slots j).reached_bar_req && p.barrier_done) [
        | true ↦ some (u, ps)
        | false ↦ wait_loop m j ps u
      ]

  -- req.clear(); stat.clear(); log.clear()
  unfoldable pub clear_requests : Nbx U → Nbx U
  unfolding log_clear
  clear_requests s = log_clear (record s { req = []; stat = 0 })

  -- The receiver knows nothing. The early return leaves NBX_prc_qcnt raised.
  unfoldable pub sync_unknown :
      Mpi → List Outgoing → MsgAlloc U → ℕ → List Poll → Nbx U → Option (Nbx U)
  sync_unknown m outs alloc arg polls s =
      if s.queued == 0
      then (let t = queue_all_sends outs (enqueue s) in
          let u =
            set_slot 0
              (record (t.slots 0) {
                active = nbx_unknown;
                rid = 0;
                reached_bar_req = false;
                msg_alloc = alloc;
                ptr_arg = arg;
              })
              (record t { cnt_base = t.nbx_cnt }) in
          wait_loop m 0 polls u >>= λ r.
          advance (clear_requests r.0) >>= λ w. some (record w { queued = 0 }))
      else some (note (complain asynchronous_running) (enqueue s))

  -- The block for a position in the state NBX_KNOWN
  unfoldable pub finish_known : ℕ → List ℕ → Nbx U → Option (Nbx U)
  finish_known j vs s = advance (execute vs s) >>= λ t. some (set_active j nbx_unactive t)

  -- The block for NBX_KNOWN_PRC
  unfoldable pub continue_known_prc : ℕ → List ℕ → Nbx U → Option (Nbx U)
  continue_known_prc j vs s = advance (execute vs s) >>= λ t.
      let x = t.slots j in
      exchange_sized x.sends x.prc_recv x.msg_alloc x.ptr_arg t >>= λ u.
      some (set_active j nbx_known u)

  -- The blocks after it, for NBX_UNKNOWN
  unfoldable pub finish_unknown : Mpi → ℕ → List Poll → Nbx U → Option (Nbx U × List Poll)
  finish_unknown m j polls s = wait_loop m j polls s >>= λ r.
      advance (clear_requests r.0) >>= λ t. some (set_active j nbx_unactive t, r.1)

  -- The body of the loop over the queue positions
  unfoldable pub wait_slot : Mpi → ℕ → Answers → Nbx U → Option (Nbx U × List Poll)
  wait_slot m j a s = elim (s.slots j).active [
    | nbx_unactive ↦ some (s, a.polls)
    | nbx_unknown ↦ finish_unknown m j a.polls s
    | nbx_known ↦ finish_known j (a.sizes j) s >>= λ t. some (t, a.polls)
    | nbx_known_prc ↦
        continue_known_prc j (a.sizes j) s >>= λ t. finish_known j [] t >>= λ u. some (u, a.polls)
  ]

  -- The loop over the positions `j`, `j + 1`, …, `n` of them
  unfoldable pub wait_slots : Mpi → ℕ → ℕ → Answers → Nbx U → Option (Nbx U)
  wait_slots m zero j a s = some s
  wait_slots m (suc n) j a s =
      wait_slot m j a s >>= λ r. wait_slots m n (j + 1) (record a { polls = r.1 }) r.0

  -- sendrecvMultipleMessagesNBXWait
  unfoldable pub nbx_wait : Mpi → Answers → Nbx U → Option (Nbx U)
  nbx_wait m a s = wait_slots m nqueue 0 a s >>= λ t. some (record t { queued = 0 })
