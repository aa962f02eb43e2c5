-- ===== src/Semantic/Delivery/Queued.antt =====
-- What the wait leaves of several exchanges that are queued (VCluster/VCluster_base.hpp:
-- sendrecvMultipleMessagesNBXWait, with msg_alloc and reorder_buffer of VCluster/VCluster.hpp).
use native.Mathlib.Decide.{ℕ_discrete}
use openfpm_vcluster.Prelude.{
  ℕ, ◌≡◌, ◌≢◌, refl, sym, ap, ap₂, ◌∙◌, subst, false, true, ◌||◌, not, Option, none, some, List, [],
  ◌∷◌, ◌++◌, append_assoc, update, leb, Bool-cases, inl, inr, arith,
}
use openfpm_vcluster.Wire.{Mpi, Probed, probe_size}
use openfpm_vcluster.Tags.{nqueue, slot_of_tag, in_window}
use openfpm_vcluster.Nbx.State.{nbx_unactive, Nbx}
use openfpm_vcluster.Nbx.Progress.{Message, Poll, ignores}
use openfpm_vcluster.Semantic.Reorder.Order.{Arrival}
use openfpm_vcluster.Semantic.Alloc.{Memory}
use openfpm_vcluster.Semantic.Alloc.Recording.{Records, update_same}
use openfpm_vcluster.Semantic.Alloc.Growth.{
  InUse, info_at, SlotRecords, Received, IsOwn-kept, nothing,
}
use openfpm_vcluster.Semantic.Alloc.Polling.{update_other}
use openfpm_vcluster.Semantic.Alloc.Hearing.{heard_sized, heard_message, heard_probe, heard_all}

-- What is heard for a position depends on the state of no other.
heard_elsewhere :
    (m : Mpi) (msg : Message) (s : Nbx Memory) (k : ℕ)
    → k ≢ slot_of_tag s.cnt_base msg.tag
    → heard_message m msg s k ≡ []
heard_elsewhere m msg s k h =
    let i = slot_of_tag s.cnt_base msg.tag in
    elim (Bool-cases
      (leb nqueue i || ignores (s.slots i).active || not (in_window s.cnt_base s.queued msg.tag))) [
        | inl e ↦ rw e refl
        | inr e ↦ rw e (sized (probe_size m msg.bytes))
      ]
  where
    sized : (o : Option Probed) → heard_sized msg s o k ≡ []
    sized none = refl
    sized (some pr) = update_other nothing (slot_of_tag s.cnt_base msg.tag) _ k h

module _ (m : Mpi) (s t : Nbx Memory) (base : t.cnt_base ≡ s.cnt_base)
    (queued : t.queued ≡ s.queued) (k : ℕ) (active : (t.slots k).active ≡ (s.slots k).active) where
  heard_message_at : (msg : Message) → heard_message m msg t k ≡ heard_message m msg s k
  heard_message_at msg =
      let i = slot_of_tag s.cnt_base msg.tag in
      elim (ℕ_discrete k i) [
        | yes q ↦
            let here : (t.slots i).active ≡ (s.slots i).active =
              subst (λ n. (t.slots n).active ≡ (s.slots n).active) q active in
            rw (base, queued, here) refl
        | no q ↦
            heard_elsewhere m msg t k (λ e. q (e ∙ ap (λ b. slot_of_tag b msg.tag) base))
            ∙ sym (heard_elsewhere m msg s k q)
      ]

  heard_probe_at : (o : Option Message) → heard_probe m o t k ≡ heard_probe m o s k
  heard_probe_at none = refl
  heard_probe_at (some msg) = heard_message_at msg

  pub heard_all_at : (ps : List Poll) → heard_all m ps t k ≡ heard_all m ps s k
  heard_all_at [] = refl
  heard_all_at (p ∷ ps) =
      ap₂ (λ (x y : List Arrival). x ++ y) (heard_probe_at p.probe) (heard_all_at ps)

pub heard_all-append :
    (m : Mpi) (ps qs : List Poll) (s : Nbx Memory) (k : ℕ)
    → heard_all m (ps ++ qs) s k ≡ heard_all m ps s k ++ heard_all m qs s k
heard_all-append m [] qs s k = refl
heard_all-append m (p ∷ ps) qs s k =
    ap (λ x. heard_probe m p.probe s k ++ x) (heard_all-append m ps qs s k)
    ∙ sym (append_assoc (heard_probe m p.probe s k) (heard_all m ps s k) (heard_all m qs s k))

-- Only positions in use count.
pub Received-cong :
    (rs qs : ℕ → List Arrival) (s : Nbx Memory)
    → ((j : ℕ) → InUse s j → rs j ≡ qs j)
    → Received rs s
    → Received qs s
Received-cong rs qs s e h = record {
  own = h.own;
  slot = λ j u. subst (SlotRecords s j) (e j u) (h.slot j u);
}

pub true-false : true ≡ false → ⊥
true-false e = grind arith

-- Position `j` is free, and all else that this is about is as it was.
pub record Released (j : ℕ) (s t : Nbx Memory) : Type 0 where
  pub mem : t.mem ≡ s.mem
  pub base : t.cnt_base ≡ s.cnt_base
  pub queued : t.queued ≡ s.queued
  pub slots : t.slots ≡ update s.slots j (record (s.slots j) { active = nbx_unactive })

module _ (j : ℕ) (s t : Nbx Memory) (e : Released j s t) where
  pub released_there : (t.slots j).active ≡ nbx_unactive
  released_there = rw e.slots (ap (λ x. x.active) (update_same s.slots j _))

  pub released_other : (k : ℕ) → k ≢ j → t.slots k ≡ s.slots k
  released_other k h = ap (λ f. f k) e.slots ∙ update_other s.slots j _ k h

  Released-InUse : (k : ℕ) → InUse t k → k ≢ j
  Released-InUse k u q = true-false (ap ignores (sym released_there) ∙ subst (InUse t) q u)

  released_argument : (k : ℕ) → (t.slots k).ptr_arg ≡ (s.slots k).ptr_arg
  released_argument k = ap (λ f. (f k).ptr_arg) e.slots ∙ ground arith

  pub released_info : (k : ℕ) → info_at t k ≡ info_at s k
  released_info k = ap₂ (λ (x : Memory) (a : ℕ). x.infos a) e.mem (released_argument k)

  pub released_back : (k : ℕ) → InUse t k → InUse s k
  released_back k u = ap (λ x. ignores x.active) (sym (released_other k (Released-InUse k u))) ∙ u

  pub Released-Received : (rs : ℕ → List Arrival) → Received rs s → Received rs t
  Released-Received rs h = record {
    own = IsOwn-kept s t released_info released_back h.own;
    slot = λ k u.
        let same = released_other k (Released-InUse k u) in
        let x = h.slot k (released_back k u) in
        record {
          call_back = ap (λ y. y.msg_alloc) same ∙ x.call_back;
          place = ap (λ y. y.rid) same ∙ x.place;
          records =
              subst (λ i. Records t.mem k i (rs k)) (sym (released_info k))
                (subst (λ y. Records y k (info_at s k) (rs k)) (sym e.mem) x.records);
        };
  }
