-- ===== src/Tags.antt =====
-- The message tags of VCluster/VCluster_base.hpp: how NBX_cnt, the queue position and the message's
-- index are packed in a tag, how progressCommunication decodes it, and the constructor's nbx_cycle.
pub mod Decoding
pub mod Bounds
mod Examples
use openfpm_vcluster.Prelude.{
  ℕ, ◌+◌, ◌-◌, ◌*◌, ◌/◌, ◌%◌, ◌^◌, Bool, ◌&&◌, Option, none, some, ltb, leb, ◌==◌, if◌then◌else◌,
}

abbrev pub send_sparse : ℕ
send_sparse = 8192

abbrev pub send_recv_base : ℕ
send_recv_base = 4096

abbrev pub nqueue : ℕ
nqueue = 4

-- The messages of one queue position: the tags of a position are this far apart.
abbrev pub tag_span : ℕ
tag_span = 131072

-- queue_all_sends: the tag of message `i` of queue position `q` (NBX_prc_qcnt) at NBX_cnt `cnt`
unfoldable pub sparse_tag : ℕ → ℕ → ℕ → ℕ
sparse_tag cnt q i = send_sparse + (cnt + q) * tag_span + i

-- The tag that the calls with known receivers hand to send and recv
unfoldable pub known_tag : ℕ → ℕ
known_tag cnt = send_sparse + cnt * tag_span

-- send and recv add SEND_RECV_BASE.
unfoldable pub point_tag : ℕ → ℕ
point_tag tag = send_recv_base + tag

-- progressCommunication: the queue position of a tag, an `unsigned int`. A tag below SEND_SPARSE
-- has the quotient 0, as C++ rounds towards zero and `-` stops at 0 here.
unfoldable pub slot_of_tag : ℕ → ℕ → ℕ
slot_of_tag base tag = ((tag - send_sparse) / tag_span + 2 ^ 32 - base) % 2 ^ 32

-- progressCommunication: whether the tag is one of ours; `queued` is NBX_prc_qcnt + 1.
unfoldable pub in_window : ℕ → ℕ → ℕ → Bool
in_window base queued tag =
    leb (send_sparse + base * tag_span) tag && ltb tag (send_sparse + (base + queued) * tag_span)

-- The constructor's nbx_cycle, as the `size_t` that `% nbx_cycle` converts it to; `none` is an MPI
-- without the attribute MPI_TAG_UB. A difference below zero is divided towards zero.
unfoldable pub nbx_cycle_of : Option ℕ → ℕ
nbx_cycle_of none = 2048
nbx_cycle_of (some tag_ub) =
    let used : ℕ = send_sparse + 131072 + nqueue * 131072 in
    if leb used tag_ub
    then (tag_ub - used) / 131072
    else (2 ^ 64 - (used - tag_ub) / 131072) % 2 ^ 64

-- NBX_cnt = (NBX_cnt + 1) % nbx_cycle; a remainder by 0 is undefined.
unfoldable pub next_cnt : ℕ → ℕ → Option ℕ
next_cnt cycle cnt = if cycle == 0 then none else some ((cnt + 1) % cycle)
