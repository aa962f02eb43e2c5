-- ===== src/Semantic/Send/Session.antt =====
-- A process from its construction through any number of calls of SSendRecv (VCluster/VCluster.hpp, with
-- the constructor of VCluster/VCluster_base.hpp).
use openfpm_vcluster.Prelude.{
  ℕ, ◌≤◌, ◌<◌, ◌≡◌, refl, false, Option, none, some, List, [], ◌∷◌, ◌>>=◌, All, arith,
}
use openfpm_vcluster.Wire.{Mpi}
use openfpm_vcluster.Tags.{nbx_cycle_of}
use openfpm_vcluster.Nbx.State.{nbx_unactive, Nbx, Slot, Outgoing}
use openfpm_vcluster.Nbx.Wait.{Answers}
use openfpm_vcluster.Nbx.Completion.{Enough}
use openfpm_vcluster.Semantic.Reorder.{Buffer, Entry}
use openfpm_vcluster.Semantic.Reorder.Order.{IsSort}
use openfpm_vcluster.Semantic.Alloc.{Memory}
use openfpm_vcluster.Semantic.Pack.Unpack.{Unpacking}
use openfpm_vcluster.Semantic.Send.{Vcluster, Request, has_flag, receive_known, ssend_recv}
use openfpm_vcluster.Semantic.Send.Starting.{IsIdle, messages_of}
use openfpm_vcluster.Semantic.Send.Exchanging.{ssend_recv-Ended}
use openfpm_vcluster.Semantic.Reorder.Order.{bufs_of}

-- The constructor of Vcluster_base, as far as it sets fields that the exchanges read: `tag_ub` is
-- MPI_TAG_UB, or `none` where MPI has no such attribute, `raw` what the arrays of NQUEUE entries hold
-- where nothing is written to them, and `sent` and `received` are the counters of the library.
unfoldable pub construct_base : {U : Type 0} → Option ℕ → (ℕ → Slot U) → ℕ → ℕ → U → Nbx U
construct_base tag_ub raw sent received mem = record {
  nbx_cnt = 0;
  nbx_cycle = nbx_cycle_of tag_ub;
  queued = 0;
  cnt_base = 0;
  slots = λ j. record (raw j) { active = nbx_unactive; rid = 0 };
  req = [];
  stat = 0;
  sz_recv_tmp = [];
  s_log = [];
  r_log = [];
  tot_sent = sent;
  tot_recv = received;
  calls = [];
  mem = mem;
}

-- The constructor of Vcluster: `mem` holds the callers' vectors. The pointers mem[j] and pmem[j] are
-- not set, and point at nothing that could be deleted.
unfoldable pub construct_vcluster : Option ℕ → (ℕ → Slot Memory) → ℕ → ℕ → Memory → Vcluster
unfolding construct_base
construct_vcluster tag_ub raw sent received mem = record {
  nbx =
      construct_base tag_ub raw sent received
        (record mem { recv_buf = λ b. []; sz = λ j. []; tags = λ j. [] });
  scnt = 0;
  pcnt = 0;
  mem = λ j. none;
}

-- MPI_TAG_UB is at least 794624, so that nbx_cycle is positive, or MPI has no such attribute.
abbrev pub LeavesRoom : Option ℕ → Type 0
LeavesRoom none = Unit
LeavesRoom (some tag_ub) = 794624 ≤ tag_ub

nbx_cycle_of-pos : (tag_ub : Option ℕ) → LeavesRoom tag_ub → 0 < nbx_cycle_of tag_ub
unfolding nbx_cycle_of
nbx_cycle_of-pos none h = omega arith
nbx_cycle_of-pos (some tag_ub) h = ground arith

pub construct_vcluster-IsIdle :
    (tag_ub : Option ℕ) (raw : ℕ → Slot Memory) (sent received : ℕ) (mem : Memory)
    → LeavesRoom tag_ub
    → IsIdle (construct_vcluster tag_ub raw sent received mem)
unfolding construct_vcluster
construct_vcluster-IsIdle tag_ub raw sent received mem h = record {
  scnt = refl;
  pcnt = refl;
  queued = refl;
  cycle = nbx_cycle_of-pos tag_ub h;
  active = λ j. refl;
}

-- One call of SSendRecv: its arguments, and what MPI answers
pub record Exchange : Type 0 where
  pub request : Request
  pub answers : Answers

-- The call is with unknown senders, an empty sz_recv and objects that make messages, and MPI's answers
-- contain a round in which its exchange can end.
pub record CanEnd (m : Mpi) (e : Exchange) : Type 0 where
  pub unknown : has_flag e.request.opt receive_known ≡ false
  pub no_sizes : e.request.sz_recv ≡ []
  pub outs : List Outgoing
  pub messages : messages_of e.request ≡ some outs
  pub enough : Enough m 1 e.answers.polls

module _ (m : Mpi) (sort : List Entry → List Entry) {S : Type 0}
    (unpack : List Buffer → Unpacking S → Option (Unpacking S)) where
  -- The calls one after the other, on one receiving object
  unfoldable pub session : List Exchange → Unpacking S → Vcluster → Option (Vcluster × Unpacking S)
  session [] u s = some (s, u)
  session (e ∷ es) u s =
      ssend_recv m sort unpack e.request e.answers u s >>= λ x. session es x.1 x.0

  session-IsIdle :
      (good : IsSort sort) (es : List Exchange) (u : Unpacking S) (s : Vcluster)
      → All (CanEnd m) es
      → ((bufs : List Buffer) (w : Unpacking S) → (v : Unpacking S) × (unpack bufs w ≡ some v))
      → IsIdle s
      → (t : Vcluster) × (v : Unpacking S) × (session es u s ≡ some (t, v)) × IsIdle t
  unfolding session
  session-IsIdle good [] u s h total idle = (s, u, refl, idle)
  session-IsIdle good (e ∷ es) u s (h, hs) total idle =
      let x =
        ssend_recv-Ended m sort good unpack u e.request e.answers s h.outs idle h.unknown h.no_sizes
          h.messages h.enough in
      let (v, unpacked) = total (bufs_of x.bs) u in
      let rest = session-IsIdle good es v x.after hs total x.idle in
      (rest.0, rest.1, rw (x.returns v unpacked) rest.2, rest.3)

  -- A process that was constructed under an MPI_TAG_UB of at least 794624, or with none, makes any
  -- synchronous calls with unknown senders, one after the other, each with an empty sz_recv and
  -- objects that make messages, and an unpacking that always ends. If the answers for each call
  -- contain a round in which its exchange can end, after any rounds whose messages MPI can count,
  -- they all return, and no call is outstanding.
  pub session-returns :
      (good : IsSort sort) (tag_ub : Option ℕ) (raw : ℕ → Slot Memory) (sent received : ℕ)
      (mem : Memory) (es : List Exchange) (u : Unpacking S)
      → LeavesRoom tag_ub
      → All (CanEnd m) es
      → ((bufs : List Buffer) (w : Unpacking S) → (v : Unpacking S) × (unpack bufs w ≡ some v))
      → (t : Vcluster) × (v : Unpacking S) × (session es u
            (construct_vcluster tag_ub raw sent received mem)
          ≡ some (t, v))
        × IsIdle t
  session-returns good tag_ub raw sent received mem es u room h total =
      session-IsIdle good es u (construct_vcluster tag_ub raw sent received mem) h total
        (construct_vcluster-IsIdle tag_ub raw sent received mem room)
