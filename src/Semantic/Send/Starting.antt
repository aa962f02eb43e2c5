-- ===== src/Semantic/Send/Starting.antt =====
-- The start of an exchange where no other call is outstanding (VCluster/VCluster.hpp,
-- prepare_send_buffer).
use openfpm_vcluster.Prelude.{
  ℕ, ◌<◌, ◌≡◌, refl, sym, ap, ap₂, ◌∙◌, true, false, Option, some, List, [], length, update, ◌==◌,
  Bool-cases, inl, inr, arith, subst,
}
use openfpm_vcluster.Nbx.State.{nbx_unactive, Nbx, Outgoing}
use openfpm_vcluster.Nbx.Post.{resize, async_unknown}
use openfpm_vcluster.Nbx.Progress.{ignores}
use openfpm_vcluster.Semantic.Alloc.{BaseInfo, Memory, set_info, msg_alloc, reset_recv_buf}
use openfpm_vcluster.Semantic.Alloc.Recording.{Records, update_same}
use openfpm_vcluster.Semantic.Alloc.Growth.{Received, InUse, info_at, SlotRecords}
use openfpm_vcluster.Semantic.Pack.{construct_prc, request_all, pack_all, messages}
use openfpm_vcluster.Semantic.Send.{
  Vcluster, Request, has_flag, receive_known, forget, resized, packed_of, post_sends, fill_and_post,
  prepare_send_buffer,
}
use openfpm_vcluster.Semantic.Send.Lone.{IsLone}

-- No call is outstanding.
pub record IsIdle (s : Vcluster) : Type 0 where
  pub scnt : s.scnt ≡ 0
  pub pcnt : s.pcnt ≡ 0
  pub queued : s.nbx.queued ≡ 0
  pub cycle : 0 < s.nbx.nbx_cycle
  pub active : (j : ℕ) → (s.nbx.slots j).active ≡ nbx_unactive

-- The vectors when the exchange at position `k` starts
abbrev pub fresh_memory : ℕ → Request → Memory → Memory
fresh_memory k r m =
    forget k r.prc_recv
      (set_info k r.prc_recv r.opt (reset_recv_buf k (resized k (length r.sz_recv) m)))

-- What the call-backs find for the call at position `k`
abbrev pub info_of : ℕ → Request → BaseInfo
info_of k r = record { recv_buf = some k; prc = r.prc_recv; sz = k; tags = k; opt = r.opt }

pub fresh-Records :
    (k : ℕ) (r : Request) (m : Memory)
    → r.sz_recv ≡ []
    → Records (fresh_memory k r m) k (info_of k r) []
unfolding set_info reset_recv_buf resize
fresh-Records k r m e = record {
  target = refl;
  bufs = update_same m.recv_buf k [];
  procs = update_same m.prc r.prc_recv [];
  sizes = update_same m.sz k _ ∙ rw e refl;
  tags = update_same m.tags k [];
}

pub first_only :
    (n : Nbx Memory)
    → ((j : ℕ) → 0 < j → (n.slots j).active ≡ nbx_unactive)
    → (j : ℕ) → InUse n j
    → j ≡ 0
first_only n h j u = elim (Bool-cases (j == 0)) [
  | inl b ↦ ground arith
  | inr b ↦ let l : 0 < j = ground arith in absurd (true-false (sym (ap ignores (h j l)) ∙ u))
]
  where
    true-false : true ≡ false → ⊥
    true-false e = grind arith

-- Where only the first position is in use, its vectors are its own.
pub Received-first :
    (n : Nbx Memory)
    → ((j : ℕ) → InUse n j → j ≡ 0)
    → (info_at n 0).recv_buf ≡ some 0
    → SlotRecords n 0 []
    → Received (λ j. []) n
Received-first n only own first = record {
  own = record {
    buffers = λ j u. subst (λ k. (info_at n k).recv_buf ≡ some k) (sym (only j u)) own;
    sizes = λ j k u v q. only j u ∙ sym (only k v);
    tags = λ j k u v q. only j u ∙ sym (only k v);
    callers = λ j k u v q. only j u ∙ sym (only k v);
  };
  slot = λ j u. subst (λ k. SlotRecords n k []) (sym (only j u)) first;
}

-- The exchange has received nothing yet.
pub lone-Received :
    (r : Request) (s : Vcluster) (n : Nbx Memory)
    → IsIdle s
    → r.sz_recv ≡ []
    → IsLone msg_alloc 0 (record s.nbx { mem = fresh_memory 0 r s.nbx.mem }) n
    → Received (λ j. []) n
unfolding set_info reset_recv_buf
lone-Received r s n h e l =
    let only = first_only n (λ j k. l.others j k ∙ h.active j) in
    let named : info_at n 0 ≡ (fresh_memory 0 r s.nbx.mem).infos 0 =
      ap₂ (λ (m : Memory) (i : ℕ). m.infos i) l.mem l.argument in
    let first : SlotRecords n 0 [] = record {
      call_back = l.call_back;
      place = l.place;
      records =
          subst (λ i. Records n.mem 0 i []) (sym named)
            (subst (λ m. Records m 0 ((fresh_memory 0 r s.nbx.mem).infos 0) []) (sym l.mem)
              (fresh-Records 0 r s.nbx.mem e));
    } in
    Received-first n only (ap (λ i. i.recv_buf) named) first

-- What the requests come to: the messages for the objects to send
abbrev pub messages_of : Request → Option (List Outgoing)
messages_of r =
    let sizes = request_all r.send (0, []) in
    let packed = pack_all r.send (record { base = r.base; written = [] }, []) in
    messages (construct_prc r.layout r.prc_send) sizes.1 packed.1

pub fill_and_post-lone :
    (r : Request) (s : Vcluster) (outs : List Outgoing)
    → IsIdle s
    → has_flag r.opt receive_known ≡ false
    → messages_of r ≡ some outs
    → fill_and_post r s
      ≡ async_unknown outs msg_alloc 0 (record s.nbx { mem = fresh_memory 0 r s.nbx.mem })
unfolding fill_and_post post_sends
fill_and_post-lone r s outs h k e = rw (k, h.scnt, e) refl

-- A call at position 0, once its exchange is posted
abbrev pub posted : Request → Vcluster → Nbx Memory → Vcluster
posted r s n = record s { nbx = n; mem = update s.mem s.scnt (some (packed_of r)) }

pub prepare-lone :
    (r : Request) (s : Vcluster) (n : Nbx Memory)
    → IsIdle s
    → fill_and_post r s ≡ some n
    → prepare_send_buffer r s ≡ some (posted r s n)
unfolding prepare_send_buffer
prepare-lone r s n h e = rw e (rw h.scnt refl)
