-- ===== src/Semantic/Send/Calling.antt =====
-- Several asynchronous calls with unknown senders, one after the other (VCluster/VCluster.hpp:
-- SSendRecvAsync).
use native.Mathlib.Decide.{ℕ_discrete}
use mathlib.Core.Option.{some-injective}
use mathlib.Core.List.{Mem, Pairwise, mem-cons_self, mem-cons_of_mem}
use openfpm_vcluster.Prelude.{
  ℕ, zero, suc, ◌+◌, ◌≤◌, ◌<◌, ◌≡◌, ◌≢◌, refl, sym, ap, ◌∙◌, subst, false, Option, none, some, List,
  [], ◌∷◌, All, length, get_elem?, update, leb, ◌>>=◌, arith, ap₂, on_some,
}
use openfpm_vcluster.Tags.{nqueue}
use openfpm_vcluster.Nbx.State.{nbx_unknown, Nbx, Outgoing}
use openfpm_vcluster.Semantic.Alloc.{Memory, msg_alloc}
use openfpm_vcluster.Semantic.Alloc.Growth.{info_at}
use openfpm_vcluster.Semantic.Alloc.Recording.{update_same}
use openfpm_vcluster.Semantic.Alloc.Polling.{update_other}
use openfpm_vcluster.Semantic.Send.{
  Vcluster, Request, has_flag, receive_known, prepare_send_buffer, ssend_recv_async, packed_of,
}
use openfpm_vcluster.Semantic.Send.Starting.{fresh_memory, info_of, messages_of}
use openfpm_vcluster.Semantic.Send.Next.{IsNext, async_unknown-IsNext}
use openfpm_vcluster.Semantic.Send.Asynchronous.{
  IsOpen, Follows, fill_and_post_at, last_slot, other_slot, last_info, other_info, own_names,
  next-Received,
}

-- A call with unknown senders, for which the sends can be posted
pub record Asks (r : Request) : Type 0 where
  pub flag : has_flag r.opt receive_known ≡ false
  pub empty : r.sz_recv ≡ []
  pub outs : List Outgoing
  pub sends : messages_of r ≡ some outs

-- What the call leaves
abbrev called : Request → Vcluster → Nbx Memory → Vcluster
called r s n = record s {
  nbx = n;
  scnt = s.scnt + 1;
  mem = update s.mem s.scnt (some (packed_of r));
}

called-IsOpen :
    (r : Request) (s : Vcluster) (n : Nbx Memory)
    → IsOpen s
    → r.sz_recv ≡ []
    → IsNext msg_alloc s.scnt (record s.nbx { mem = fresh_memory s.scnt r s.nbx.mem }) n
    → ((j : ℕ) → j < s.scnt → (info_at s.nbx j).prc ≢ r.prc_recv)
    → IsOpen (called r s n)
called-IsOpen r s n h e x apart = record {
  queued = x.queued ∙ ap (λ i. i + 1) h.queued;
  counter = omega (arith, h.counter, x.cnt, x.cycle);
  free = λ j l.
      let q : j ≢ s.scnt = λ p. absurd (omega (arith, p, l)) in
      ap (λ y. y.active) (other_slot r s n h e x j q) ∙ h.free j (omega (arith, l));
  awaits = λ j l. elim (ℕ_discrete j s.scnt) [
    | yes q ↦
        subst (λ i. (n.slots i).active ≡ nbx_unknown) (sym q)
          (ap (λ y. y.active) (last_slot r s n h e x))
    | no q ↦ ap (λ y. y.active) (other_slot r s n h e x j q) ∙ h.awaits j (omega (arith, l, q))
  ];
  argument = λ j l. elim (ℕ_discrete j s.scnt) [
    | yes q ↦
        subst (λ i. (n.slots i).ptr_arg ≡ i) (sym q) (ap (λ y. y.ptr_arg) (last_slot r s n h e x))
    | no q ↦ ap (λ y. y.ptr_arg) (other_slot r s n h e x j q) ∙ h.argument j (omega (arith, l, q))
  ];
  sizes = λ j l. (own_names r s n h e x j l).0;
  tags = λ j l. (own_names r s n h e x j l).1;
  got = next-Received r s n h e x apart;
}

async-Follows :
    (r : Request) (s : Vcluster)
    → IsOpen s
    → s.scnt < 4
    → Asks r
    → ((j : ℕ) → j < s.scnt → (info_at s.nbx j).prc ≢ r.prc_recv)
    → (t : Vcluster) × (ssend_recv_async r s ≡ some t) × Follows r s t
unfolding ssend_recv_async prepare_send_buffer
async-Follows r s h l k apart =
    let start = record s.nbx { mem = fresh_memory s.scnt r s.nbx.mem } in
    let (n, async, x) =
      async_unknown-IsNext k.outs msg_alloc s.scnt start (omega (arith, l, h.queued)) in
    let room : leb nqueue s.scnt ≡ false = ground (arith, l) in
    (
      called r s n,
      rw room (rw (fill_and_post_at r s k.outs k.flag k.sends ∙ async) refl),
      record {
        still = called-IsOpen r s n h k.empty x apart;
        scnt = refl;
        pcnt = refl;
        mem = refl;
        info = last_info r s n h k.empty x;
        others = other_info r s n h k.empty x;
      },
    )

-- The calls for some requests
unfoldable pub call_each : List Request → Vcluster → Option Vcluster
call_each [] s = some s
call_each (r ∷ rs) s = ssend_recv_async r s >>= λ t. call_each rs t

-- No two of the requests name the same vector of the caller.
abbrev pub ApartCallers : List Request → Type 0
ApartCallers rs = Pairwise (λ (r q : Request). r.prc_recv ≢ q.prc_recv) rs

-- The calls were made, each at its position.
pub record Called (rs : List Request) (s t : Vcluster) : Type 0 where
  pub still : IsOpen t
  pub scnt : t.scnt ≡ s.scnt + length rs
  pub pcnt : t.pcnt ≡ s.pcnt
  pub held :
      (k : ℕ) (r : Request) → get_elem? rs k ≡ some r → t.mem (s.scnt + k) ≡ some (packed_of r)
  pub kept : (j : ℕ) → j < s.scnt → t.mem j ≡ s.mem j
  pub infos :
      (k : ℕ) (r : Request)
      → get_elem? rs k ≡ some r
      → info_at t.nbx (s.scnt + k) ≡ info_of (s.scnt + k) r
  pub others : (j : ℕ) → j < s.scnt → info_at t.nbx j ≡ info_at s.nbx j

pub none-some : {A : Type 0} {x : A} → ◌≡◌ {A = Option A} none (some x) → ⊥
none-some {A} e = on_some (λ (y : A). ⊥) none e tt

-- The first call, and then the others
then :
    (r : Request) (rs : List Request) (s u t : Vcluster)
    → Follows r s u
    → Called rs u t
    → Called (r ∷ rs) s t
then r rs s u t f g =
    let last : s.scnt < u.scnt = omega (arith, f.scnt) in
    record {
      still = g.still;
      scnt = omega (arith, g.scnt, f.scnt);
      pcnt = g.pcnt ∙ f.pcnt;
      held = held;
      kept = λ j b.
          g.kept j (omega (arith, b, f.scnt))
          ∙ ap (λ h. h j) f.mem
          ∙ update_other s.mem s.scnt _ j (λ e. absurd (omega (arith, e, b)));
      infos = infos;
      others = λ j b. g.others j (omega (arith, b, f.scnt)) ∙ f.others j b;
    }
  where
    here : (i : ℕ) → i + 0 ≡ i
    here i = omega arith

    held :
        (k : ℕ) (q : Request)
        → get_elem? (r ∷ rs) k ≡ some q
        → t.mem (s.scnt + k) ≡ some (packed_of q)
    held zero q e =
        ap t.mem (here s.scnt)
        ∙ g.kept s.scnt (omega (arith, f.scnt))
        ∙ ap (λ h. h s.scnt) f.mem
        ∙ update_same s.mem s.scnt _
        ∙ ap (λ x. some (packed_of x)) (some-injective r q e)
    held (suc k) q e =
        let at : s.scnt + suc k ≡ u.scnt + k = omega (arith, f.scnt) in ap t.mem at ∙ g.held k q e

    infos :
        (k : ℕ) (q : Request)
        → get_elem? (r ∷ rs) k ≡ some q
        → info_at t.nbx (s.scnt + k) ≡ info_of (s.scnt + k) q
    infos zero q e =
        ap (info_at t.nbx) (here s.scnt)
        ∙ g.others s.scnt (omega (arith, f.scnt))
        ∙ f.info
        ∙ ap₂ info_of (sym (here s.scnt)) (some-injective r q e)
    infos (suc k) q e =
        let at : s.scnt + suc k ≡ u.scnt + k = omega (arith, f.scnt) in
        ap (info_at t.nbx) at ∙ g.infos k q e ∙ ap (λ i. info_of i q) (sym at)

pub call_each-Called :
    (rs : List Request) (s : Vcluster)
    → IsOpen s
    → s.scnt + length rs ≤ 4
    → All Asks rs
    → ApartCallers rs
    → ((q : Request) → Mem q rs → (j : ℕ) → j < s.scnt → (info_at s.nbx j).prc ≢ q.prc_recv)
    → (t : Vcluster) × (call_each rs s ≡ some t) × Called rs s t
unfolding call_each
call_each-Called [] s h l k p apart = (
  s,
  refl,
  record {
    still = h;
    scnt = omega arith;
    pcnt = refl;
    held = λ k r e. absurd (none-some e);
    kept = λ j b. refl;
    infos = λ k r e. absurd (none-some e);
    others = λ j b. refl;
  },
)
call_each-Called (r ∷ rs) s h l (k, ks) (Pairwise.cons first p) apart =
    let (u, made, f) =
      async-Follows r s h (omega (arith, l)) k (λ j b. apart r mem-cons_self j b) in
    let away : (q : Request)
        → Mem q rs
        → (j : ℕ) → j < u.scnt
        → (info_at u.nbx j).prc ≢ q.prc_recv =
      λ q i j b. elim (ℕ_discrete j s.scnt) [
        | yes e ↦ λ x. first q i (sym (ap (λ y. y.prc) (ap (info_at u.nbx) e ∙ f.info)) ∙ x)
        | no e ↦
            let c : j < s.scnt = omega (arith, b, e, f.scnt) in
            λ x. apart q (mem-cons_of_mem r i) j c (sym (ap (λ y. y.prc) (f.others j c)) ∙ x)
      ] in
    let (t, rest, g) = call_each-Called rs u f.still (omega (arith, l, f.scnt)) ks p away in
    (t, rw made rest, then r rs s u t f g)
