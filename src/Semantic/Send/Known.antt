-- ===== src/Semantic/Send/Known.antt =====
-- A call with known senders at another position than the first (VCluster/VCluster.hpp).
use openfpm_vcluster.Prelude.{
  ℕ, ◌+◌, ◌<◌, ◌≡◌, refl, ap, ◌∙◌, true, false, some, List, [], ◌∷◌, length, update, ◌==◌, leb,
  OnSome, on_some, OnSome-mono, >>=-OnSome, Bool-cases, inl, inr, arith,
}
use openfpm_vcluster.Tags.{nqueue, known_tag}
use openfpm_vcluster.Nbx.State.{Nbx, Outgoing, Incoming}
use openfpm_vcluster.Nbx.Post.{
  send, recv, send_all, recv_one, recv_all, enqueue, mark_base, async_known,
}
use openfpm_vcluster.Nbx.Wait.{with_sizes}
use openfpm_vcluster.Semantic.Reorder.{Buffer}
use openfpm_vcluster.Semantic.Alloc.{Memory, make_room, msg_alloc_known, set_info, reset_recv_buf}
use openfpm_vcluster.Semantic.Pack.{request_all, pack_all, messages}
use openfpm_vcluster.Semantic.Send.{
  Vcluster, Request, has_flag, receive_known, known_element_or_byte, prepare_send_buffer,
  ssend_recv_async, post_sends, fill_and_post, known_bytes, set_bytes, resized,
}
use openfpm_vcluster.Semantic.Alloc.Recording.{update_same}

pub send_all_mem :
    (tag : ℕ) (outs : List Outgoing) (s : Nbx Memory) → (send_all tag outs s).mem ≡ s.mem
unfolding send_all send
send_all_mem tag [] s = refl
send_all_mem tag (o ∷ os) s = send_all_mem tag os _

-- What the call-back for known senders leaves: the buffers of every position but the first
abbrev Elsewhere : ℕ → Memory → Memory → Type 0
Elsewhere k m t = (t.recv_buf k ≡ m.recv_buf k) × ((t.infos 0).recv_buf ≡ some 0)

pub allocates_first :
    (tag shown i : ℕ) (n : Incoming) (s : Nbx Memory)
    → (s.mem.infos 0).recv_buf ≡ some 0
    → (recv_one tag shown msg_alloc_known 0 i n s).mem
      ≡ record s.mem { recv_buf = update s.mem.recv_buf 0 (make_room i n.sz (s.mem.recv_buf 0)) }
unfolding recv_one msg_alloc_known recv
allocates_first tag shown i n s e = rw (e, msg_alloc_known) refl

recv_one-Elsewhere :
    (tag shown i k : ℕ) (n : Incoming) (s : Nbx Memory)
    → (k == 0) ≡ false
    → (s.mem.infos 0).recv_buf ≡ some 0
    → Elsewhere k s.mem (recv_one tag shown msg_alloc_known 0 i n s).mem
recv_one-Elsewhere tag shown i k n s h e = rw (allocates_first tag shown i n s e) (rw h refl, e)

recv_all-Elsewhere :
    (tag shown i k : ℕ) (ins : List Incoming) (s : Nbx Memory)
    → (k == 0) ≡ false
    → (s.mem.infos 0).recv_buf ≡ some 0
    → Elsewhere k s.mem (recv_all tag shown msg_alloc_known 0 i ins s).mem
unfolding recv_all
recv_all-Elsewhere tag shown i k [] s h e = (refl, e)
recv_all-Elsewhere tag shown i k (n ∷ ns) s h e =
    let (f, g) = recv_one-Elsewhere tag shown i k n s h e in
    let (f', g') = recv_all-Elsewhere tag shown (i + 1) k ns _ h g in (f' ∙ f, g')

mark_base_mem : (s : Nbx Memory) → (mark_base s).mem ≡ s.mem
unfolding mark_base
mark_base_mem s = ground arith

async_known-Elsewhere :
    (outs : List Outgoing) (ins : List Incoming) (k : ℕ) (s : Nbx Memory)
    → (k == 0) ≡ false
    → (s.mem.infos 0).recv_buf ≡ some 0
    → (async_known outs ins msg_alloc_known 0 s).mem.recv_buf k ≡ s.mem.recv_buf k
unfolding async_known
async_known-Elsewhere outs ins k s h e = elim (Bool-cases (leb nqueue s.queued)) [
  | inl b ↦ rw b refl
  | inr b ↦
      let tag = known_tag s.nbx_cnt in
      let t = send_all tag outs (enqueue s) in
      let mem = send_all_mem tag outs (enqueue s) in
      let f = recv_all-Elsewhere tag tag 0 k ins t h (ap (λ m. (m.infos 0).recv_buf) mem ∙ e) in
      rw b (ap (λ m. m.recv_buf k) (mark_base_mem _) ∙ f.0 ∙ ap (λ m. m.recv_buf k) mem)
]

abbrev LeftAlone : ℕ → List Buffer → Nbx Memory → Type 0
LeftAlone k bufs n = n.mem.recv_buf k ≡ bufs

post_sends-LeftAlone :
    (r : Request) (k : ℕ) (sz ptr : List ℕ) (s : Nbx Memory)
    → has_flag r.opt receive_known ≡ true
    → has_flag r.opt known_element_or_byte ≡ true
    → (k == 0) ≡ false
    → (s.mem.infos 0).recv_buf ≡ some 0
    → OnSome (LeftAlone k (s.mem.recv_buf k)) (post_sends r k sz ptr s)
unfolding post_sends
post_sends-LeftAlone r k sz ptr s f g h e =
    let bytes = known_bytes r.value_size r.sz_recv (s.mem.sz k) in
    rw (f, g)
      (>>=-OnSome (LeftAlone k (s.mem.recv_buf k)) (messages r.prc_send sz ptr) _ λ outs q.
        >>=-OnSome (LeftAlone k (s.mem.recv_buf k)) (with_sizes (s.mem.prc r.prc_recv) bytes) _
          λ ins q'.
            async_known-Elsewhere outs ins k (record s { mem = set_bytes k bytes s.mem }) h e)

-- The vectors as fill_and_post makes them
own_buffers :
    (r : Request) (s : Vcluster)
    → has_flag r.opt receive_known ≡ true
    → has_flag r.opt known_element_or_byte ≡ true
    → (s.scnt == 0) ≡ false
    → (s.nbx.mem.infos 0).recv_buf ≡ some 0
    → OnSome (LeftAlone s.scnt []) (fill_and_post r s)
unfolding fill_and_post set_info reset_recv_buf
own_buffers r s f g h e =
    let k = s.scnt in
    let m = reset_recv_buf k (resized k (length r.sz_recv) s.nbx.mem) in
    let sizes = request_all r.send (0, []) in
    let packed = pack_all r.send (record { base = r.base; written = [] }, []) in
    let start : Nbx Memory = record s.nbx { mem = set_info k r.prc_recv r.opt m } in
    let none_yet : start.mem.recv_buf k ≡ [] = update_same s.nbx.mem.recv_buf k [] in
    let away : (0 == k) ≡ false = ground arith in
    let info : (start.mem.infos 0).recv_buf ≡ some 0 = rw away e in
    OnSome-mono (LeftAlone k (start.mem.recv_buf k)) (LeftAlone k [])
      (post_sends r k sizes.1 packed.1 start) (λ n q. q ∙ none_yet)
      (post_sends-LeftAlone r k sizes.1 packed.1 start f g h info)

prepared_buffers :
    (r : Request) (s : Vcluster)
    → has_flag r.opt receive_known ≡ true
    → has_flag r.opt known_element_or_byte ≡ true
    → (s.scnt == 0) ≡ false
    → (s.nbx.mem.infos 0).recv_buf ≡ some 0
    → OnSome (λ t. t.nbx.mem.recv_buf s.scnt ≡ []) (prepare_send_buffer r s)
unfolding prepare_send_buffer
prepared_buffers r s f g h e = elim (Bool-cases (leb nqueue s.scnt)) [
  | inl c ↦ rw c tt
  | inr c ↦ rw c (
      >>=-OnSome (λ t. t.nbx.mem.recv_buf s.scnt ≡ []) (fill_and_post r s) _
        λ n q. on_some (LeftAlone s.scnt []) _ q (own_buffers r s f g h e))
]

-- A call with known senders and numbers of elements, made at another position than the first while
-- the entry of the first position names its receive buffers: no room is made in the receive
-- buffers of the call's own position, from which the wait will unpack; they are left empty.
pub known_call-Elsewhere :
    (r : Request) (s t : Vcluster)
    → 0 < s.scnt
    → has_flag r.opt receive_known ≡ true
    → has_flag r.opt known_element_or_byte ≡ true
    → (s.nbx.mem.infos 0).recv_buf ≡ some 0
    → ssend_recv_async r s ≡ some t
    → t.nbx.mem.recv_buf s.scnt ≡ []
unfolding ssend_recv_async
known_call-Elsewhere r s t l k b e q =
    on_some (λ t. t.nbx.mem.recv_buf s.scnt ≡ []) (ssend_recv_async r s) q
      (>>=-OnSome (λ t. t.nbx.mem.recv_buf s.scnt ≡ []) (prepare_send_buffer r s) _
        λ t p.
          on_some (λ t. t.nbx.mem.recv_buf s.scnt ≡ []) _ p
            (prepared_buffers r s k b (ground arith) e))
