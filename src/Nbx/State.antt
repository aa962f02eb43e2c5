-- ===== src/Nbx/State.antt =====
-- The fields of Vcluster_base and the calls it makes of MPI (VCluster/VCluster_base.hpp), with the
-- send and receive logs of util/Vcluster_log.hpp.
use openfpm_vcluster.Prelude.{ℕ, Bool, List, [], ◌∷◌, ◌++◌, length, update, ◌==◌, if◌then◌else◌}
use openfpm_vcluster.Wire.{Transfer}

-- NBX_Type: the state of one position of the queue
pub data NbxType : Type 0 where
  nbx_unactive nbx_unknown nbx_known nbx_known_prc : NbxType

-- The addresses that MPI is handed: a buffer of the caller or of a call-back, the i-th entry of
-- sz_recv_tmp, or the i-th entry of the caller's array of sizes.
pub data Ptr : Type 0 where
  buffer : ℕ → Ptr
  size_cell : ℕ → Ptr
  size_entry : ℕ → Ptr

-- A message to send: sz[i], prc[i], ptr[i].
pub record Outgoing : Type 0 where
  pub sz : ℕ
  pub prc : ℕ
  pub ptr : ℕ

-- A message that the receiver knows of: prc_recv[i], sz_recv[i].
pub record Incoming : Type 0 where
  pub prc : ℕ
  pub sz : ℕ

-- The arguments of a msg_alloc call-back before its `ptr_arg`.
pub record AllocArgs : Type 0 where
  pub msg_i : ℕ
  pub total_msg : ℕ
  pub total_p : ℕ
  pub proc : ℕ
  pub ri : ℕ
  pub tag : ℕ

-- A call-back returns the address for the message, and changes the memory of the derived class, `U`.
-- Its `ptr_arg` is a number that stands for the address.
abbrev pub MsgAlloc : Type 0 → Type 0
MsgAlloc U = AllocArgs → ℕ → U → ℕ × U

pub data ReduceOp : Type 0 where
  mpi_sum mpi_max mpi_min : ReduceOp

-- What the class prints on std::cerr or std::cout.
pub data Complaint : Type 0 where
  requests_in_progress : Complaint
  queue_full : Complaint
  asynchronous_running : Complaint
  log_mismatch : Complaint

pub data Call : Type 0 where
  isend : ℕ → ℕ → Ptr → Transfer → Call
  irecv : ℕ → ℕ → Ptr → Transfer → Call
  issend : ℕ → ℕ → Ptr → Transfer → Call
  recv : ℕ → ℕ → ℕ → Transfer → Call
  ibarrier : Call
  waitall : ℕ → Call
  iallreduce : ReduceOp → Transfer → Call
  iallgather : Transfer → Call
  ibcast : ℕ → Transfer → Call
  complain : Complaint → Call

-- The fields that are arrays of NQUEUE entries, at one index.
pub record Slot (U : Type 0) : Type 0 where
  pub active : NbxType
  pub rid : ℕ
  pub reached_bar_req : Bool
  pub sends : List Outgoing
  pub prc_recv : List ℕ
  pub msg_alloc : MsgAlloc U
  pub ptr_arg : ℕ

-- `queued` is NBX_prc_qcnt + 1; `stat` is the length of the vector; `calls` lists what was called
-- and printed so far, oldest first.
pub record Nbx (U : Type 0) : Type 0 where
  pub nbx_cnt : ℕ
  pub nbx_cycle : ℕ
  pub queued : ℕ
  pub cnt_base : ℕ
  pub slots : ℕ → Slot U
  pub req : List Call
  pub stat : ℕ
  pub sz_recv_tmp : List ℕ
  pub s_log : List ℕ
  pub r_log : List (ℕ × ℕ)
  pub tot_sent : ℕ
  pub tot_recv : ℕ
  pub calls : List Call
  pub mem : U

module _ {U : Type 0} where
  abbrev pub note : Call → Nbx U → Nbx U
  note c s = record s { calls = s.calls ++ c ∷ [] }

  -- req.add(), and the MPI call that fills req.last()
  abbrev pub post : Call → Nbx U → Nbx U
  post c s = record s { req = s.req ++ c ∷ []; calls = s.calls ++ c ∷ [] }

  abbrev pub set_slot : ℕ → Slot U → Nbx U → Nbx U
  set_slot j x s = record s { slots = update s.slots j x }

  abbrev pub set_active : ℕ → NbxType → Nbx U → Nbx U
  set_active j a s = set_slot j (record (s.slots j) { active = a }) s

  -- Vcluster_log::logSend, logRecv and clear
  unfoldable pub log_send : ℕ → Nbx U → Nbx U
  log_send prc s = record s { s_log = s.s_log ++ prc ∷ [] }

  unfoldable pub log_recv : ℕ → ℕ → Nbx U → Nbx U
  log_recv source tag s = record s { r_log = s.r_log ++ (source, tag) ∷ [] }

  unfoldable pub log_clear : Nbx U → Nbx U
  log_clear s = record s { r_log = []; s_log = [] }

  -- Vcluster_log::NBXreport, the check at its start; the report itself is text for the log file.
  unfoldable pub nbx_report : Nbx U → Nbx U
  nbx_report s = if length s.req == length s.s_log then s else note (complain log_mismatch) s
