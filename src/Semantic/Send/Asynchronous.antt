-- ===== src/Semantic/Send/Asynchronous.antt =====
-- An asynchronous call with unknown senders while others are outstanding (VCluster/VCluster.hpp:
-- SSendRecvAsync and prepare_send_buffer).
use native.Mathlib.Decide.{ℕ_discrete}
use openfpm_vcluster.Prelude.{
  ℕ, ◌+◌, ◌≤◌, ◌<◌, ◌≡◌, ◌≢◌, refl, sym, ap, ap₂, ◌∙◌, subst, false, some, List, [], update, leb,
  Bool-cases, inl, inr, arith, ◌⊎◌,
}
use openfpm_vcluster.Nbx.State.{nbx_unactive, nbx_unknown, Nbx, Outgoing}
use openfpm_vcluster.Nbx.Post.{async_unknown}
use openfpm_vcluster.Nbx.Progress.{ignores}
use openfpm_vcluster.Semantic.Alloc.{BaseInfo, Memory, msg_alloc, set_info, reset_recv_buf}
use openfpm_vcluster.Semantic.Alloc.Recording.{Records, update_same}
use openfpm_vcluster.Semantic.Alloc.Growth.{InUse, info_at, SlotRecords, Received}
use openfpm_vcluster.Semantic.Alloc.Polling.{update_other}
use openfpm_vcluster.Semantic.Delivery.Queued.{true-false}
use openfpm_vcluster.Semantic.Send.{
  Vcluster, Request, has_flag, receive_known, post_sends, fill_and_post, packed_of,
}
use openfpm_vcluster.Semantic.Send.Next.{IsNext}
use openfpm_vcluster.Semantic.Send.Starting.{fresh_memory, fresh-Records, info_of, messages_of}

-- Calls are outstanding: each has its position, and has received nothing yet.
pub record IsOpen (s : Vcluster) : Type 0 where
  pub queued : s.nbx.queued ≡ s.scnt
  pub counter : s.nbx.nbx_cnt < s.nbx.nbx_cycle
  pub free : (j : ℕ) → s.scnt ≤ j → (s.nbx.slots j).active ≡ nbx_unactive
  pub awaits : (j : ℕ) → j < s.scnt → (s.nbx.slots j).active ≡ nbx_unknown
  pub argument : (j : ℕ) → j < s.scnt → (s.nbx.slots j).ptr_arg ≡ j
  pub sizes : (j : ℕ) → j < s.scnt → (info_at s.nbx j).sz ≡ j
  pub tags : (j : ℕ) → j < s.scnt → (info_at s.nbx j).tags ≡ j
  pub got : Received (λ j. []) s.nbx

-- The call that was made last, for the request `r`
pub record Follows (r : Request) (s t : Vcluster) : Type 0 where
  pub still : IsOpen t
  pub scnt : t.scnt ≡ s.scnt + 1
  pub pcnt : t.pcnt ≡ s.pcnt
  pub mem : t.mem ≡ update s.mem s.scnt (some (packed_of r))
  pub info : info_at t.nbx s.scnt ≡ info_of s.scnt r
  pub others : (j : ℕ) → j < s.scnt → info_at t.nbx j ≡ info_at s.nbx j

-- The vectors of another position are as they were.
other-Records :
    (k : ℕ) (r : Request) (m : Memory) (j : ℕ) (info : BaseInfo)
    → j ≢ k
    → info.sz ≢ k
    → info.tags ≢ k
    → info.prc ≢ r.prc_recv
    → Records m j info []
    → Records (fresh_memory k r m) j info []
unfolding set_info reset_recv_buf
other-Records k r m j info a b c d h = record {
  target = h.target;
  bufs = update_other m.recv_buf k _ j a ∙ h.bufs;
  procs = update_other m.prc r.prc_recv _ info.prc d ∙ h.procs;
  sizes = update_other m.sz k _ info.sz b ∙ h.sizes;
  tags = update_other m.tags k _ info.tags c ∙ h.tags;
}

pub fill_and_post_at :
    (r : Request) (s : Vcluster) (outs : List Outgoing)
    → has_flag r.opt receive_known ≡ false
    → messages_of r ≡ some outs
    → fill_and_post r s
      ≡ async_unknown outs msg_alloc s.scnt (record s.nbx { mem = fresh_memory s.scnt r s.nbx.mem })
unfolding fill_and_post post_sends
fill_and_post_at r s outs k e = rw (k, e) refl

module _ (r : Request) (s : Vcluster) (n : Nbx Memory) (h : IsOpen s) (empty : r.sz_recv ≡ [])
    (x : IsNext msg_alloc s.scnt (record s.nbx { mem = fresh_memory s.scnt r s.nbx.mem }) n) where
  pub last_slot : n.slots s.scnt ≡ record (s.nbx.slots s.scnt) {
    active = nbx_unknown;
    rid = 0;
    reached_bar_req = false;
    msg_alloc = msg_alloc;
    ptr_arg = s.scnt;
  }
  last_slot =
      subst
        (λ q. n.slots q ≡ record (s.nbx.slots q) {
          active = nbx_unknown;
          rid = 0;
          reached_bar_req = false;
          msg_alloc = msg_alloc;
          ptr_arg = s.scnt;
        })
        h.queued x.here

  pub other_slot : (j : ℕ) → j ≢ s.scnt → n.slots j ≡ s.nbx.slots j
  other_slot j q = x.others j (λ e. q (e ∙ h.queued))

  pub last_info : info_at n s.scnt ≡ info_of s.scnt r
  unfolding set_info reset_recv_buf
  last_info =
      ap₂ (λ (m : Memory) (i : ℕ). m.infos i) x.mem (ap (λ y. y.ptr_arg) last_slot)
      ∙ update_same s.nbx.mem.infos s.scnt (info_of s.scnt r)

  pub other_info : (j : ℕ) → j < s.scnt → info_at n j ≡ info_at s.nbx j
  unfolding set_info reset_recv_buf
  other_info j l =
      let q : j ≢ s.scnt = λ e. absurd (omega (arith, l, e)) in
      let a = h.argument j l in
      ap₂ (λ (m : Memory) (i : ℕ). m.infos i) x.mem (ap (λ y. y.ptr_arg) (other_slot j q) ∙ a)
      ∙ update_other s.nbx.mem.infos s.scnt _ j q
      ∙ ap s.nbx.mem.infos (sym a)

  InUse-before : (j : ℕ) → InUse n j → j ≢ s.scnt → j < s.scnt
  InUse-before j u q = elim (Bool-cases (leb s.scnt j)) [
    | inl e ↦
        let l : s.scnt ≤ j = ground arith in
        absurd (
          true-false
            (sym (ap (λ y. ignores y.active) (other_slot j q) ∙ ap ignores (h.free j l)) ∙ u))
    | inr e ↦ ground arith
  ]

  pub before-InUse : (j : ℕ) → j < s.scnt → InUse s.nbx j
  before-InUse j l = ap ignores (h.awaits j l)

  last_or_before : (j : ℕ) → InUse n j → (j ≡ s.scnt) ⊎ (j < s.scnt)
  last_or_before j u = elim (ℕ_discrete j s.scnt) [
    | yes q ↦ inl q
    | no q ↦ inr (InUse-before j u q)
  ]

  pub own_names : (j : ℕ) → j < s.scnt + 1 → ((info_at n j).sz ≡ j) × ((info_at n j).tags ≡ j)
  own_names j l = elim (ℕ_discrete j s.scnt) [
    | yes q ↦
        subst (λ i. ((info_at n i).sz ≡ i) × ((info_at n i).tags ≡ i)) (sym q)
          (ap (λ f. f.sz) last_info, ap (λ f. f.tags) last_info)
    | no q ↦
        let b : j < s.scnt = omega (arith, q) in
        (
          ap (λ f. f.sz) (other_info j b) ∙ h.sizes j b,
          ap (λ f. f.tags) (other_info j b) ∙ h.tags j b,
        )
  ]

  own_buffers : (j : ℕ) → InUse n j → (info_at n j).recv_buf ≡ some j
  own_buffers j u = elim (last_or_before j u) [
    | inl q ↦ subst (λ i. (info_at n i).recv_buf ≡ some i) (sym q) (ap (λ f. f.recv_buf) last_info)
    | inr b ↦ ap (λ f. f.recv_buf) (other_info j b) ∙ h.got.own.buffers j (before-InUse j b)
  ]

  up_to_last : (j : ℕ) → InUse n j → j < s.scnt + 1
  up_to_last j u = elim (last_or_before j u) [ inl q ↦ omega (arith, q) | inr b ↦ omega (arith, b) ]

  last_Records : SlotRecords n s.scnt []
  last_Records = record {
    call_back = ap (λ y. y.msg_alloc) last_slot;
    place = ap (λ y. y.rid) last_slot;
    records =
        subst (λ i. Records n.mem s.scnt i []) (sym last_info)
          (subst (λ m. Records m s.scnt (info_of s.scnt r) []) (sym x.mem)
            (fresh-Records s.scnt r s.nbx.mem empty));
  }

  module _ (apart : (j : ℕ) → j < s.scnt → (info_at s.nbx j).prc ≢ r.prc_recv) where
    before_Records : (j : ℕ) → j < s.scnt → SlotRecords n j []
    before_Records j b =
        let q : j ≢ s.scnt = λ e. absurd (omega (arith, b, e)) in
        let was = h.got.slot j (before-InUse j b) in
        record {
          call_back = ap (λ y. y.msg_alloc) (other_slot j q) ∙ was.call_back;
          place = ap (λ y. y.rid) (other_slot j q) ∙ was.place;
          records =
              subst (λ i. Records n.mem j i []) (sym (other_info j b))
                (subst (λ m. Records m j (info_at s.nbx j) []) (sym x.mem)
                  (other-Records s.scnt r s.nbx.mem j (info_at s.nbx j) q
                    (λ e. q (sym (h.sizes j b) ∙ e)) (λ e. q (sym (h.tags j b) ∙ e)) (apart j b)
                    was.records));
        }

    last_caller : (j : ℕ) → j < s.scnt → (info_at n j).prc ≢ (info_at n s.scnt).prc
    last_caller j b e =
        apart j b (sym (ap (λ f. f.prc) (other_info j b)) ∙ e ∙ ap (λ f. f.prc) last_info)

    own_callers : (j k : ℕ) → InUse n j → InUse n k → (info_at n j).prc ≡ (info_at n k).prc → j ≡ k
    own_callers j k u v e = elim (last_or_before j u) [
      | inl q ↦ elim (last_or_before k v) [
        | inl p ↦ q ∙ sym p
        | inr c ↦ absurd (last_caller k c (sym e ∙ ap (λ i. (info_at n i).prc) q))
      ]
      | inr b ↦ elim (last_or_before k v) [
        | inl p ↦ absurd (last_caller j b (e ∙ ap (λ i. (info_at n i).prc) p))
        | inr c ↦
            h.got.own.callers j k (before-InUse j b) (before-InUse k c)
              (sym (ap (λ f. f.prc) (other_info j b)) ∙ e ∙ ap (λ f. f.prc) (other_info k c))
      ]
    ]

    pub next-Received : Received (λ j. []) n
    next-Received = record {
      own = record {
        buffers = own_buffers;
        sizes = λ j k u v e.
            sym (own_names j (up_to_last j u)).0 ∙ e ∙ (own_names k (up_to_last k v)).0;
        tags = λ j k u v e.
            sym (own_names j (up_to_last j u)).1 ∙ e ∙ (own_names k (up_to_last k v)).1;
        callers = own_callers;
      };
      slot = λ j u. elim (last_or_before j u) [
        | inl q ↦ subst (λ i. SlotRecords n i []) (sym q) last_Records
        | inr b ↦ before_Records j b
      ];
    }
