-- ===== src/Nbx/Progress.antt =====
-- progressCommunication (VCluster/VCluster_base.hpp): one probe for a message, then the test of the
-- sends and the barrier of each queue position.
use openfpm_vcluster.Prelude.{
  ℕ, ◌+◌, ◌%◌, ◌^◌, Bool, true, false, ◌||◌, Option, none, some, leb, if◌then◌else◌, ◌>>=◌,
}
use openfpm_vcluster.Wire.{Mpi, Probed, probe_size, recv_probed}
use openfpm_vcluster.Tags.{nqueue, slot_of_tag, in_window}
use openfpm_vcluster.Nbx.State.{
  NbxType, nbx_unactive, nbx_unknown, nbx_known, nbx_known_prc, AllocArgs, recv, ibarrier, Nbx,
  note, set_slot, log_recv,
}
use openfpm_vcluster.Nbx.Post.{is_empty}

-- A message that MPI_Iprobe shows: MPI_SOURCE, MPI_TAG and its bytes.
pub record Message : Type 0 where
  pub source : ℕ
  pub tag : ℕ
  pub bytes : ℕ

-- What MPI answers in one round of polling: MPI_Iprobe, MPI_Testall for each queue position that
-- asks, and MPI_Test of the barrier.
pub record Poll : Type 0 where
  pub probe : Option Message
  pub all_sent : ℕ → Bool
  pub barrier_done : Bool

-- The states for which progressCommunication leaves a position alone
abbrev pub ignores : NbxType → Bool
ignores nbx_unactive = true
ignores nbx_unknown = false
ignores nbx_known = true
ignores nbx_known_prc = true

module _ {U : Type 0} where
  -- Allocate through the call-back and receive.
  unfoldable pub receive : ℕ → Message → Probed → Nbx U → Nbx U
  unfolding log_recv
  receive i msg pr s =
      let x = s.slots i in
      let args : AllocArgs = record {
        msg_i = pr.msize;
        total_msg = 0;
        total_p = 0;
        proc = msg.source;
        ri = x.rid;
        tag = msg.tag;
      } in
      let (ptr, mem) = x.msg_alloc args x.ptr_arg s.mem in
      note (recv msg.source msg.tag ptr (recv_probed pr)) (
        log_recv msg.source msg.tag (
          set_slot i (record x { rid = x.rid + 1 })
            (record s { mem = mem; tot_recv = (s.tot_recv + pr.msize) % 2 ^ 64 })))

  unfoldable pub accept : ℕ → Message → Probed → Nbx U → Nbx U
  accept i msg pr s = if in_window s.cnt_base s.queued msg.tag then receive i msg pr s else s

  -- The body of the loop over the queue positions
  unfoldable pub check_send : Poll → ℕ → Nbx U → Nbx U
  check_send p i s =
      if ignores (s.slots i).active
      then s
      else if (s.slots i).reached_bar_req
      then s
      else if is_empty s.req || p.all_sent i
      then set_slot i (record (s.slots i) { reached_bar_req = true }) (note ibarrier s)
      else s

  unfoldable pub check_sends : Poll → Nbx U → Nbx U
  check_sends p s = check_send p 3 (check_send p 2 (check_send p 1 (check_send p 0 s)))

  -- `none` is a message that MPI_Get_count describes neither as doubles nor as bytes.
  unfoldable pub on_message : Mpi → Poll → Message → Nbx U → Option (Nbx U)
  on_message m p msg s =
      let i = slot_of_tag s.cnt_base msg.tag in
      if leb nqueue i || ignores (s.slots i).active
      then some s
      else probe_size m msg.bytes >>= λ pr. some (check_sends p (accept i msg pr s))

  unfoldable pub progress : Mpi → Poll → Nbx U → Option (Nbx U)
  unfolding on_message
  progress m p s = elim p.probe [ none ↦ some (check_sends p s) | some msg ↦ on_message m p msg s ]
