-- ===== src/Semantic/Alloc/Polling.antt =====
-- That the messages of the queued exchanges are kept apart and in step (VCluster/VCluster.hpp: msg_alloc,
-- with progressCommunication of VCluster/VCluster_base.hpp that calls it).
use native.Mathlib.Decide.{ℕ_discrete}
use openfpm_vcluster.Prelude.{
  ℕ, ◌+◌, ◌≡◌, ◌≢◌, sym, ap, ap₂, ◌∙◌, subst, false, List, [], ◌∷◌, ◌++◌, length-append, append-nil,
  update, ◌==◌, arith,
}
use openfpm_vcluster.Wire.{Probed}
use openfpm_vcluster.Nbx.State.{AllocArgs, Nbx, Slot, log_recv}
use openfpm_vcluster.Nbx.Progress.{Message, ignores, receive}
use openfpm_vcluster.Semantic.Reorder.Order.{Arrival}
use openfpm_vcluster.Semantic.Alloc.{Memory}
use openfpm_vcluster.Semantic.Alloc.Recording.{
  update_same, Records, noted, filled, filled-Records, msg_alloc-filled,
}
use openfpm_vcluster.Semantic.Alloc.Growth.{
  InUse, info_at, IsOwn, SlotRecords, IsOwn-kept, Grows, nothing,
}

pub update_other : {A : Type 0} (f : ℕ → A) (k : ℕ) (v : A) (j : ℕ) → j ≢ k → update f k v j ≡ f j
update_other f k v j h = let e : (j == k) ≡ false = ground arith in rw e

-- The vectors of another position are as they were.
filled_other :
    (s : Nbx Memory) (i j : ℕ) (a : AllocArgs) (rs : List Arrival)
    → IsOwn s
    → InUse s i
    → InUse s j
    → j ≢ i
    → Records s.mem j (info_at s j) rs
    → Records (filled s.mem i (info_at s i) a) j (info_at s j) rs
unfolding filled
filled_other s i j a rs own b c h r =
    let m = s.mem in
    record {
      target = r.target;
      bufs = update_other m.recv_buf i _ j h ∙ r.bufs;
      procs = update_other m.prc (info_at s i).prc _ _ (λ e. h (own.callers j i c b e)) ∙ r.procs;
      sizes = update_other m.sz (info_at s i).sz _ _ (λ e. h (own.sizes j i c b e)) ∙ r.sizes;
      tags = update_other m.tags (info_at s i).tags _ _ (λ e. h (own.tags j i c b e)) ∙ r.tags;
    }

abbrev pub args_of : ℕ → Message → Probed → Nbx Memory → AllocArgs
args_of i msg pr s = record {
  msg_i = pr.msize;
  total_msg = 0;
  total_p = 0;
  proc = msg.source;
  ri = (s.slots i).rid;
  tag = msg.tag;
}

pub receive-mem :
    (i : ℕ) (msg : Message) (pr : Probed) (s : Nbx Memory) (rs : List Arrival)
    → IsOwn s
    → InUse s i
    → SlotRecords s i rs
    → (receive i msg pr s).mem ≡ filled s.mem i (info_at s i) (args_of i msg pr s)
unfolding receive log_recv
receive-mem i msg pr s rs own b k =
    let a = args_of i msg pr s in
    ap (λ f. (f a (s.slots i).ptr_arg s.mem).1) k.call_back
    ∙ ap (λ r. r.1) (msg_alloc-filled s.mem (s.slots i).ptr_arg i a (own.buffers i b))

receive_argument :
    (i j : ℕ) (msg : Message) (pr : Probed) (s : Nbx Memory)
    → ((receive i msg pr s).slots j).ptr_arg ≡ (s.slots j).ptr_arg
unfolding receive log_recv
receive_argument i j msg pr s = ground arith

receive_info :
    (i j : ℕ) (msg : Message) (pr : Probed) (s : Nbx Memory) (rs : List Arrival)
    → IsOwn s
    → InUse s i
    → SlotRecords s i rs
    → info_at (receive i msg pr s) j ≡ info_at s j
unfolding filled
receive_info i j msg pr s rs own b k =
    ap₂ (λ (m : Memory) (a : ℕ). m.infos a) (receive-mem i msg pr s rs own b k)
      (receive_argument i j msg pr s)

-- What the vectors hold after the call-back
recorded :
    (i j : ℕ) (msg : Message) (pr : Probed) (s : Nbx Memory) (rs qs : List Arrival)
    → IsOwn s
    → InUse s i
    → SlotRecords s i rs
    → Records (filled s.mem i (info_at s i) (args_of i msg pr s)) j (info_at s j) qs
    → Records (receive i msg pr s).mem j (info_at (receive i msg pr s) j) qs
recorded i j msg pr s rs qs own b k h =
    let t = receive i msg pr s in
    subst (λ x. Records t.mem j x qs) (sym (receive_info i j msg pr s rs own b k))
      (subst (λ m. Records m j (info_at s j) qs) (sym (receive-mem i msg pr s rs own b k)) h)

abbrev taken : Slot Memory → Slot Memory
taken x = record x { rid = x.rid + 1 }

-- The position that the message is for
receive_own :
    (i : ℕ) (msg : Message) (pr : Probed) (s : Nbx Memory) (rs : List Arrival)
    → IsOwn s
    → InUse s i
    → SlotRecords s i rs
    → SlotRecords (receive i msg pr s) i (rs ++ noted (args_of i msg pr s) ∷ [])
unfolding receive log_recv filled
receive_own i msg pr s rs own b k =
    let x = update_same s.slots i (taken (s.slots i)) in
    let n = args_of i msg pr s in
    record {
      call_back = ap (λ y. y.msg_alloc) x ∙ k.call_back;
      place = ap (λ y. y.rid) x ∙ omega (arith, k.place, length-append rs (noted n ∷ []));
      records =
          recorded i i msg pr s rs (rs ++ noted n ∷ []) own b k
            (filled-Records s.mem i (info_at s i) rs n k.records k.place);
    }

-- Another position
receive_other :
    (i j : ℕ) (msg : Message) (pr : Probed) (s : Nbx Memory) (rs qs : List Arrival)
    → IsOwn s
    → InUse s i
    → SlotRecords s i rs
    → j ≢ i
    → InUse s j
    → SlotRecords s j qs
    → SlotRecords (receive i msg pr s) j qs
unfolding receive log_recv filled
receive_other i j msg pr s rs qs own b k h c l =
    let x = update_other s.slots i (taken (s.slots i)) j h in
    record {
      call_back = ap (λ y. y.msg_alloc) x ∙ l.call_back;
      place = ap (λ y. y.rid) x ∙ l.place;
      records =
          recorded i j msg pr s rs qs own b k
            (filled_other s i j (args_of i msg pr s) qs own b c h l.records);
    }

receive_active :
    (i j : ℕ) (msg : Message) (pr : Probed) (s : Nbx Memory)
    → ((receive i msg pr s).slots j).active ≡ (s.slots j).active
unfolding receive log_recv
receive_active i j msg pr s = ground arith

pub receive-Grows :
    (i : ℕ) (msg : Message) (pr : Probed) (s : Nbx Memory)
    → ignores (s.slots i).active ≡ false
    → Grows (update nothing i (noted (args_of i msg pr s) ∷ [])) s (receive i msg pr s)
unfolding filled
receive-Grows i msg pr s a rs h = (
  record {
    own = IsOwn-kept s t same (λ j b. ap ignores (sym (receive_active i j msg pr s)) ∙ b) h.own;
    slot = λ j b. elim (ℕ_discrete j i) [
      | yes q ↦
          subst (λ x. SlotRecords t x (rs x ++ new x)) (sym q)
            (subst (λ l. SlotRecords t i (rs i ++ l)) (sym (update_same nothing i (noted n ∷ [])))
              (receive_own i msg pr s (rs i) h.own a k))
      | no q ↦
          let c : InUse s j = ap ignores (sym (receive_active i j msg pr s)) ∙ b in
          unmoved j q (receive_other i j msg pr s (rs i) (rs j) h.own a k q c (h.slot j c))
    ];
  },
  same,
)
  where
    n : AllocArgs
    n = args_of i msg pr s

    t : Nbx Memory
    t = receive i msg pr s

    k : SlotRecords s i (rs i)
    k = h.slot i a

    same : (j : ℕ) → info_at t j ≡ info_at s j
    same j = receive_info i j msg pr s (rs i) h.own a k

    new : ℕ → List Arrival
    new = update nothing i (noted n ∷ [])

    unmoved : (j : ℕ) → j ≢ i → SlotRecords t j (rs j) → SlotRecords t j (rs j ++ new j)
    unmoved j q l =
        subst (λ x. SlotRecords t j (rs j ++ x)) (sym (update_other nothing i (noted n ∷ []) j q))
          (subst (SlotRecords t j) (sym (append-nil (rs j))) l)
