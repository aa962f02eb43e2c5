-- ===== src/Semantic/Send/Shown.antt =====
-- What the polling of an exchange hears of the messages that MPI shows, where they are messages of that
-- exchange (VCluster/VCluster_base.hpp: progressCommunication).

use mathlib.Core.Option.{some-injective}
use openfpm_vcluster.Prelude.{
  ℕ, ◌≡◌, refl, sym, ap, ap₂, ◌∙◌, on_some, leb, true, false, Option, none, some, List, [], ◌∷◌,
  ◌++◌, length, All,
}
use openfpm_vcluster.Wire.{Mpi, Probed, probe_size}
use openfpm_vcluster.Tags.{nqueue, slot_of_tag, in_window}
use openfpm_vcluster.Nbx.State.{nbx_unknown, Nbx}
use openfpm_vcluster.Nbx.Progress.{Message, Poll, ignores}
use openfpm_vcluster.Semantic.Reorder.{Buffer}
use openfpm_vcluster.Semantic.Reorder.Order.{Arrival}
use openfpm_vcluster.Semantic.Alloc.{Memory, fresh_buffer, write_buffer}
use openfpm_vcluster.Semantic.Alloc.Hearing.{
  heard_sized, heard_message, heard_probe, heard_all, announced,
}
use openfpm_vcluster.Semantic.Delivery.Contents.{carrying}

-- The messages that MPI shows in some rounds
abbrev pub shown_probe : Option Message → List Message → List Message
shown_probe none ms = ms
shown_probe (some msg) ms = msg ∷ ms

abbrev pub shown : List Poll → List Message
shown [] = []
shown (p ∷ ps) = shown_probe p.probe (shown ps)

-- The messages with the bytes that MPI writes for them
abbrev pub delivered : List Message → List Buffer → List Arrival
delivered [] cs = []
delivered (msg ∷ ms) [] =
    record { proc = msg.source; tag = msg.tag; buf = []; sz = msg.bytes } ∷ delivered ms []
delivered (msg ∷ ms) (c ∷ cs) =
    record { proc = msg.source; tag = msg.tag; buf = c; sz = msg.bytes } ∷ delivered ms cs

-- The size that progressCommunication finds
abbrev pub found_size : Option Probed → Option ℕ
found_size none = none
found_size (some pr) = some pr.msize

-- A message of the exchange that is queued alone at NBX_cnt `base`, with all its bytes, of a size that
-- MPI can count
abbrev pub Belongs : Mpi → ℕ → Arrival → Type 0
Belongs m base a =
    (slot_of_tag base a.tag ≡ 0)
    × (in_window base 1 a.tag ≡ true)
    × (found_size (probe_size m a.sz) ≡ some a.sz)
    × (length a.buf ≡ a.sz)

pub Belongs-prop : (m : Mpi) (base : ℕ) (a : Arrival) → IsProp (Belongs m base a)
Belongs-prop m base a = hlevel

write_fresh : (b : Buffer) → write_buffer b (fresh_buffer (length b)) ≡ b
write_fresh [] = refl
write_fresh (x ∷ b) = ap (λ t. x ∷ t) (write_fresh b)

heard_sized_own :
    (msg : Message) (n : Nbx Memory) (o : Option Probed)
    → slot_of_tag n.cnt_base msg.tag ≡ 0
    → found_size o ≡ some msg.bytes
    → heard_sized msg n o 0 ≡ announced msg msg.bytes ∷ []
heard_sized_own msg n none e f = absurd (on_some (λ (x : ℕ). ⊥) none f tt)
heard_sized_own msg n (some pr) e f =
    let size : pr.msize ≡ msg.bytes = some-injective pr.msize msg.bytes f in rw (e, size) refl

module _ (m : Mpi) (n : Nbx Memory) (lone : n.queued ≡ 1)
    (active : (n.slots 0).active ≡ nbx_unknown) where
  heard_message_own :
      (msg : Message)
      → slot_of_tag n.cnt_base msg.tag ≡ 0
      → in_window n.cnt_base 1 msg.tag ≡ true
      → found_size (probe_size m msg.bytes) ≡ some msg.bytes
      → heard_message m msg n 0 ≡ announced msg msg.bytes ∷ []
  heard_message_own msg e w f =
      let w' : in_window n.cnt_base n.queued msg.tag ≡ true =
        ap (λ q. in_window n.cnt_base q msg.tag) lone ∙ w in
      let used : ignores (n.slots (slot_of_tag n.cnt_base msg.tag)).active ≡ false =
        ap (λ i. ignores (n.slots i).active) e ∙ ap ignores active in
      let there : leb nqueue (slot_of_tag n.cnt_base msg.tag) ≡ false = ap (leb 4) e in
      rw (there, used, w') (heard_sized_own msg n (probe_size m msg.bytes) e f)

  heard_round :
      (o : Option Message) (ms : List Message) (rs : List Arrival) (cs : List Buffer)
      → ((ds : List Buffer)
          → All (Belongs m n.cnt_base) (delivered ms ds)
          → carrying ds rs ≡ delivered ms ds)
      → All (Belongs m n.cnt_base) (delivered (shown_probe o ms) cs)
      → carrying cs (heard_probe m o n 0 ++ rs) ≡ delivered (shown_probe o ms) cs
  heard_round none ms rs cs ih h = ih cs h
  heard_round (some msg) ms rs [] ih ((e, w, f, k), h) =
      let empty : msg.bytes ≡ 0 = sym k in
      rw (heard_message_own msg e w f) (
        rw empty
          (ap (λ t. record { proc = msg.source; tag = msg.tag; buf = []; sz = 0 } ∷ t) (ih [] h)))
  heard_round (some msg) ms rs (c ∷ cs) ih ((e, w, f, k), h) =
      let all : write_buffer c (fresh_buffer msg.bytes) ≡ c =
        ap (λ z. write_buffer c (fresh_buffer z)) (sym k) ∙ write_fresh c in
      rw (heard_message_own msg e w f) (
        ap₂
          (λ (b : Buffer) (t : List Arrival).
            record { proc = msg.source; tag = msg.tag; buf = b; sz = msg.bytes } ∷ t)
          all (ih cs h))

  -- What is heard of messages that all belong to the exchange: every one, with its bytes
  pub heard_all-delivered :
      (ps : List Poll) (cs : List Buffer)
      → All (Belongs m n.cnt_base) (delivered (shown ps) cs)
      → carrying cs (heard_all m ps n 0) ≡ delivered (shown ps) cs
  heard_all-delivered [] [] h = refl
  heard_all-delivered [] (c ∷ cs) h = refl
  heard_all-delivered (p ∷ ps) cs h =
      heard_round p.probe (shown ps) (heard_all m ps n 0) cs (heard_all-delivered ps) h
