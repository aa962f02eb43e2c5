-- ===== src/Semantic/Send/Announced.antt =====
-- An exchange with known senders and sizes that is the only one in the queue: what the asynchronous call
-- puts there, and what the wait for it leaves (VCluster/VCluster_base.hpp, with msg_alloc_known of
-- VCluster/VCluster.hpp).
use openfpm_vcluster.Prelude.{
  ℕ, ◌+◌, ◌%◌, ◌<◌, ◌≡◌, refl, sym, ap, ap₂, ◌∙◌, true, false, some, List, [], ◌∷◌, ◌++◌, length,
  update, leb, ◌==◌, append_assoc, append-nil, length-append, Bool-cases, inl, inr, arith,
}
use openfpm_vcluster.Wire.{Mpi}
use openfpm_vcluster.Tags.{nqueue, known_tag}
use openfpm_vcluster.Nbx.State.{nbx_unactive, nbx_known, Nbx, Outgoing, Incoming, set_active}
use openfpm_vcluster.Nbx.Post.{send_all, recv_one, recv_all, enqueue, async_known}
use openfpm_vcluster.Nbx.Requests.{
  queue_trans, send_all-SameQueue, recv_all-SameQueue, execute-slots, execute-counters,
}
use openfpm_vcluster.Nbx.Wait.{Answers, execute, finish_known, wait_slot, wait_slots, nbx_wait}
use openfpm_vcluster.Nbx.Sync.{advance-pos}
use openfpm_vcluster.Semantic.Reorder.{no_tag}
use openfpm_vcluster.Semantic.Reorder.Order.{Arrival, bufs_of}
use openfpm_vcluster.Semantic.Alloc.{Memory, fresh_buffer, make_room, msg_alloc_known}
use openfpm_vcluster.Semantic.Alloc.Recording.{bufs_of-append, make_room-next}
use openfpm_vcluster.Semantic.Send.Known.{send_all_mem, allocates_first}
use openfpm_vcluster.Semantic.Send.Lone.{mark_base_mem, wait_slots-unactive}

-- The messages that are to come, with room for each, and no tags
abbrev pub awaited : List Incoming → List Arrival
awaited [] = []
awaited (n ∷ ns) =
    record { proc = n.prc; tag = no_tag; buf = fresh_buffer n.sz; sz = n.sz } ∷ awaited ns

-- Room was made for `rs` in the first receive buffers, and nothing else was changed.
pub record HasRoom (m : Memory) (rs : List Arrival) (t : Memory) : Type 0 where
  pub bufs : t.recv_buf 0 ≡ bufs_of rs
  pub prc : t.prc ≡ m.prc
  pub sz : t.sz ≡ m.sz
  pub tags : t.tags ≡ m.tags
  pub infos : t.infos ≡ m.infos

recv_all-HasRoom :
    (tag shown i : ℕ) (ins : List Incoming) (rs : List Arrival) (s : Nbx Memory)
    → (s.mem.infos 0).recv_buf ≡ some 0
    → s.mem.recv_buf 0 ≡ bufs_of rs
    → i ≡ length rs
    → HasRoom s.mem (rs ++ awaited ins) (recv_all tag shown msg_alloc_known 0 i ins s).mem
unfolding recv_all
recv_all-HasRoom tag shown i [] rs s e f h = record {
  bufs = f ∙ ap bufs_of (sym (append-nil rs));
  prc = refl;
  sz = refl;
  tags = refl;
  infos = refl;
}
recv_all-HasRoom tag shown i (n ∷ ns) rs s e f h =
    let one = allocates_first tag shown i n s e in
    let t = recv_one tag shown msg_alloc_known 0 i n s in
    let r : Arrival = record { proc = n.prc; tag = no_tag; buf = fresh_buffer n.sz; sz = n.sz } in
    let room : t.mem.recv_buf 0 ≡ bufs_of (rs ++ r ∷ []) =
      ap (λ m. m.recv_buf 0) one
      ∙ ap₂ (λ k bs. make_room k n.sz bs) h f
      ∙ make_room-next rs n.sz
      ∙ sym (bufs_of-append rs (r ∷ [])) in
    let rest =
      recv_all-HasRoom tag shown (i + 1) ns (rs ++ r ∷ []) t
        (ap (λ m. (m.infos 0).recv_buf) one ∙ e) room
        (omega (arith, h, length-append rs (r ∷ []))) in
    record {
      bufs = rest.bufs ∙ ap bufs_of (append_assoc rs (r ∷ []) (awaited ns));
      prc = rest.prc ∙ ap (λ m. m.prc) one;
      sz = rest.sz ∙ ap (λ m. m.sz) one;
      tags = rest.tags ∙ ap (λ m. m.tags) one;
      infos = rest.infos ∙ ap (λ m. m.infos) one;
    }

-- The call is the only one in the queue, and awaits `rs`.
pub record Awaits (s n : Nbx Memory) (rs : List Arrival) : Type 0 where
  pub room : HasRoom s.mem rs n.mem
  pub cycle : n.nbx_cycle ≡ s.nbx_cycle
  pub active : (n.slots 0).active ≡ nbx_known
  pub others : (j : ℕ) → 0 < j → (n.slots j).active ≡ (s.slots j).active

pub async_known-Awaits :
    (outs : List Outgoing) (ins : List Incoming) (s : Nbx Memory)
    → s.queued ≡ 0
    → (s.mem.infos 0).recv_buf ≡ some 0
    → s.mem.recv_buf 0 ≡ []
    → Awaits s (async_known outs ins msg_alloc_known 0 s) (awaited ins)
unfolding async_known
async_known-Awaits outs ins s h e f =
    let tag = known_tag s.nbx_cnt in
    let sent = send_all tag outs (enqueue s) in
    let mem = send_all_mem tag outs (enqueue s) in
    let t = recv_all tag tag msg_alloc_known 0 0 ins sent in
    let got =
      recv_all-HasRoom tag tag 0 ins [] sent (ap (λ m. (m.infos 0).recv_buf) mem ∙ e)
        (ap (λ m. m.recv_buf 0) mem ∙ f) refl in
    let q =
      queue_trans _ _ _ (send_all-SameQueue tag outs (enqueue s))
        (recv_all-SameQueue tag tag msg_alloc_known 0 0 ins sent) in
    let u : Nbx Memory = record t {
      slots = update t.slots s.queued (record (t.slots s.queued) { active = nbx_known });
    } in
    let b = mark_base_mem u in
    let free : leb nqueue s.queued ≡ false = ground arith in
    let first : (0 == s.queued) ≡ true = ground arith in
    rw free (record {
      room = record {
        bufs = ap (λ m. m.recv_buf 0) b.0 ∙ got.bufs;
        prc = ap (λ m. m.prc) b.0 ∙ got.prc ∙ ap (λ m. m.prc) mem;
        sz = ap (λ m. m.sz) b.0 ∙ got.sz ∙ ap (λ m. m.sz) mem;
        tags = ap (λ m. m.tags) b.0 ∙ got.tags ∙ ap (λ m. m.tags) mem;
        infos = ap (λ m. m.infos) b.0 ∙ got.infos ∙ ap (λ m. m.infos) mem;
      };
      cycle = b.1 ∙ q.cycle;
      active = rw (b.2, first) refl;
      others = λ j l.
          let later : (j == s.queued) ≡ false = ground arith in
          rw (b.2, later) (ap (λ g. (g j).active) q.slots);
    })

execute-mem : (vs : List ℕ) (s : Nbx Memory) → (execute vs s).mem ≡ s.mem
unfolding execute
execute-mem vs s = ground arith

-- The wait for it returns, whatever MPI answers.
pub nbx_wait-known :
    (m : Mpi) (a : Answers) (s : Nbx Memory)
    → 0 < s.nbx_cycle
    → (s.slots 0).active ≡ nbx_known
    → ((j : ℕ) → 0 < j → (s.slots j).active ≡ nbx_unactive)
    → (t : Nbx Memory) × (nbx_wait m a s ≡ some t)
      × (t.mem ≡ s.mem)
      × (t.queued ≡ 0)
      × (t.nbx_cycle ≡ s.nbx_cycle)
      × ((j : ℕ) → (t.slots j).active ≡ nbx_unactive)
unfolding nbx_wait wait_slots wait_slot finish_known
nbx_wait-known m a s c e h =
    let w = execute (a.sizes 0) s in
    let k = execute-counters (a.sizes 0) s in
    let slots = execute-slots (a.sizes 0) s in
    let t = set_active 0 nbx_unactive (record w { nbx_cnt = (w.nbx_cnt + 1) % w.nbx_cycle }) in
    let act : (j : ℕ) → (t.slots j).active ≡ nbx_unactive = λ j. elim (Bool-cases (j == 0)) [
      | inl b ↦ rw b refl
      | inr b ↦ let l : 0 < j = ground arith in rw b (ap (λ g. (g j).active) slots ∙ h j l)
    ] in
    (
      record t { queued = 0 },
      rw (e, wait_slot)
          (rw (advance-pos w (omega (arith, c, k.1)))
            (rw (wait_slots-unactive m 3 1 a t (omega arith) (λ j l. act j)) refl)),
      execute-mem (a.sizes 0) s,
      refl,
      k.1,
      act,
    )
