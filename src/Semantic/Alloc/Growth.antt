-- ===== src/Semantic/Alloc/Growth.antt =====
-- What the queued exchanges have received, and that it stays (VCluster/VCluster.hpp: the vectors that
-- msg_alloc fills; VCluster/VCluster_base.hpp: the polling between two messages).
use openfpm_vcluster.Prelude.{
  ℕ, ◌≡◌, refl, sym, ap, ap₂, ◌∙◌, subst, false, some, List, [], ◌++◌, length, append-nil,
  append_assoc, arith,
}
use openfpm_vcluster.Nbx.State.{Nbx}
use openfpm_vcluster.Nbx.Progress.{Poll, ignores, check_send, check_sends}
use openfpm_vcluster.Semantic.Reorder.Order.{Arrival}
use openfpm_vcluster.Semantic.Alloc.{BaseInfo, Memory, msg_alloc}
use openfpm_vcluster.Semantic.Alloc.Recording.{Records}

-- Position `j` awaits messages of unknown senders.
abbrev pub InUse : Nbx Memory → ℕ → Type 0
InUse s j = ignores (s.slots j).active ≡ false

-- The base_info that position `j` hands to its call-back
abbrev pub info_at : Nbx Memory → ℕ → BaseInfo
info_at s j = s.mem.infos (s.slots j).ptr_arg

-- The vectors that a position in use names are its own: its receive buffers are those of the class at
-- that position, and no other position in use names the sizes, tags or senders that it fills.
pub record IsOwn (s : Nbx Memory) : Type 0 where
  pub buffers : (j : ℕ) → InUse s j → (info_at s j).recv_buf ≡ some j
  pub sizes : (j k : ℕ) → InUse s j → InUse s k → (info_at s j).sz ≡ (info_at s k).sz → j ≡ k
  pub tags : (j k : ℕ) → InUse s j → InUse s k → (info_at s j).tags ≡ (info_at s k).tags → j ≡ k
  pub callers : (j k : ℕ) → InUse s j → InUse s k → (info_at s j).prc ≡ (info_at s k).prc → j ≡ k

-- Position `j` has received the messages `rs`, if it awaits unknown senders at all.
pub record SlotRecords (s : Nbx Memory) (j : ℕ) (rs : List Arrival) : Type 0 where
  pub call_back : (s.slots j).msg_alloc ≡ msg_alloc
  pub place : (s.slots j).rid ≡ length rs
  pub records : Records s.mem j (info_at s j) rs

-- Every position that awaits unknown senders has received its part of `rs`.
pub record Received (rs : ℕ → List Arrival) (s : Nbx Memory) : Type 0 where
  pub own : IsOwn s
  pub slot : (j : ℕ) → InUse s j → SlotRecords s j (rs j)

pub IsOwn-kept :
    (s t : Nbx Memory)
    → ((j : ℕ) → info_at t j ≡ info_at s j)
    → ((j : ℕ) → InUse t j → InUse s j)
    → IsOwn s
    → IsOwn t
IsOwn-kept s t e back own = record {
  buffers = λ j a. ap (λ f. f.recv_buf) (e j) ∙ own.buffers j (back j a);
  sizes = λ j k a b q.
      own.sizes j k (back j a) (back k b) (sym (ap (λ f. f.sz) (e j)) ∙ q ∙ ap (λ f. f.sz) (e k));
  tags = λ j k a b q.
      own.tags j k (back j a) (back k b)
        (sym (ap (λ f. f.tags) (e j)) ∙ q ∙ ap (λ f. f.tags) (e k));
  callers = λ j k a b q.
      own.callers j k (back j a) (back k b)
        (sym (ap (λ f. f.prc) (e j)) ∙ q ∙ ap (λ f. f.prc) (e k));
}

-- What was received stays, in its place, and `new` is added behind it; the positions name the same
-- vectors.
abbrev pub Grows : (ℕ → List Arrival) → Nbx Memory → Nbx Memory → Type 0
Grows new s t =
    (rs : ℕ → List Arrival)
    → Received rs s
    → Received (λ j. rs j ++ new j) t × ((j : ℕ) → info_at t j ≡ info_at s j)

abbrev pub nothing : ℕ → List Arrival
nothing j = []

pub Grows-refl : (s : Nbx Memory) → Grows nothing s s
Grows-refl s rs h = (
  record {
    own = h.own;
    slot = λ j a. subst (SlotRecords s j) (sym (append-nil (rs j))) (h.slot j a);
  },
  λ j. refl,
)

pub Grows-trans :
    (new newer : ℕ → List Arrival) (s t u : Nbx Memory)
    → Grows new s t
    → Grows newer t u
    → Grows (λ j. new j ++ newer j) s u
Grows-trans new newer s t u f g rs h =
    let (k, e) = f rs h in
    let (l, e') = g (λ j. rs j ++ new j) k in
    (
      record {
        own = l.own;
        slot = λ j a. subst (SlotRecords u j) (append_assoc (rs j) (new j) (newer j)) (l.slot j a);
      },
      λ j. e' j ∙ e j,
    )

pub Grows-then :
    (new : ℕ → List Arrival) (s t u : Nbx Memory)
    → Grows new s t
    → Grows nothing t u
    → Grows new s u
Grows-then new s t u f g rs h =
    let (l, e) = Grows-trans new nothing s t u f g rs h in
    (
      record {
        own = l.own;
        slot = λ j a. subst (λ x. SlotRecords u j (rs j ++ x)) (append-nil (new j)) (l.slot j a);
      },
      e,
    )

-- What this is about is the same in `s` and `t`.
pub record Unchanged (s t : Nbx Memory) : Type 0 where
  pub mem : t.mem ≡ s.mem
  pub active : (j : ℕ) → (t.slots j).active ≡ (s.slots j).active
  pub call_back : (j : ℕ) → (t.slots j).msg_alloc ≡ (s.slots j).msg_alloc
  pub argument : (j : ℕ) → (t.slots j).ptr_arg ≡ (s.slots j).ptr_arg
  pub place : (j : ℕ) → (t.slots j).rid ≡ (s.slots j).rid

Unchanged-info : (s t : Nbx Memory) → Unchanged s t → (j : ℕ) → info_at t j ≡ info_at s j
Unchanged-info s t u j = ap₂ (λ (m : Memory) (a : ℕ). m.infos a) u.mem (u.argument j)

pub Unchanged-Grows : (s t : Nbx Memory) → Unchanged s t → Grows nothing s t
Unchanged-Grows s t u rs h = (
  record {
    own = IsOwn-kept s t (Unchanged-info s t u) (λ j a. ap ignores (sym (u.active j)) ∙ a) h.own;
    slot = λ j a. subst (SlotRecords t j) (sym (append-nil (rs j))) (same j a);
  },
  Unchanged-info s t u,
)
  where
    same : (j : ℕ) → ignores (t.slots j).active ≡ false → SlotRecords t j (rs j)
    same j a =
        let k = h.slot j (ap ignores (sym (u.active j)) ∙ a) in
        record {
          call_back = u.call_back j ∙ k.call_back;
          place = u.place j ∙ k.place;
          records =
              subst (λ i. Records t.mem j i (rs j)) (sym (Unchanged-info s t u j))
                (subst (λ m. Records m j (info_at s j) (rs j)) (sym u.mem) k.records);
        }

-- The tests of the sends change only whether a position has reached its barrier.
pub check_send-Unchanged : (p : Poll) (i : ℕ) (s : Nbx Memory) → Unchanged s (check_send p i s)
unfolding check_send
check_send-Unchanged p i s = record {
  mem = ground arith;
  active = λ j. ground arith;
  call_back = λ j. ground arith;
  argument = λ j. ground arith;
  place = λ j. ground arith;
}

pub check_sends-Grows : (p : Poll) (s : Nbx Memory) → Grows nothing s (check_sends p s)
unfolding check_sends
check_sends-Grows p s = Grows-trans nothing nothing s _ _ (step 0 s) (
    Grows-trans nothing nothing _ _ _ (step 1 _)
      (Grows-trans nothing nothing _ _ _ (step 2 _) (step 3 _)))
  where
    step : (i : ℕ) (s : Nbx Memory) → Grows nothing s (check_send p i s)
    step i s = Unchanged-Grows s (check_send p i s) (check_send-Unchanged p i s)
