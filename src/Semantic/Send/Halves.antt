-- ===== src/Semantic/Send/Halves.antt =====
-- SSendRecvAsync with SSendRecvWait, against SSendRecv (VCluster/VCluster.hpp).
use openfpm_vcluster.Prelude.{
  ℕ, ◌+◌, ◌≡◌, refl, sym, ap, ap₂, ◌∙◌, true, Option, none, some, List, update, OnSome, OnSome-mono,
  ◌>>=◌, ◌==◌, leb, Bool-cases, inl, inr, arith,
}
use openfpm_vcluster.Wire.{Mpi}
use openfpm_vcluster.Tags.{nqueue}
use openfpm_vcluster.Nbx.Wait.{Answers, nbx_wait}
use openfpm_vcluster.Semantic.Alloc.{Memory}
use openfpm_vcluster.Semantic.Reorder.{Buffer, Entry, Reordered, reorder_buffer}
use openfpm_vcluster.Semantic.Pack.{PackMem}
use openfpm_vcluster.Semantic.Pack.Unpack.{Unpacking}
use openfpm_vcluster.Semantic.Send.{
  Vcluster, Request, packed_of, prepare_send_buffer, free_mem, reorder_at, complete, ssend_recv,
  ssend_recv_async, ssend_recv_wait, next_wait, with_contents,
}
use openfpm_vcluster.Semantic.Send.Positions.{Placed, prepare-Placed, complete-IsFreed}

-- A function of the result, applied at the end of a chain
pub bind_ends {ℓ κ μ} :
    {A : Type ℓ} {B : Type κ} {C : Type μ} (o : Option A) (f : A → Option B) (g : A → Option C)
    (h : B → C)
    → ((a : A) → g a ≡ (f a >>= λ b. some (h b)))
    → (o >>= g) ≡ (o >>= f >>= λ b. some (h b))
bind_ends none f g h e = refl
bind_ends (some a) f g h e = e a

-- The counter of the calls made
abbrev counting : ℕ → Vcluster → Vcluster
counting k s = record s { scnt = k }

module _ (m : Mpi) (sort : List Entry → List Entry) {S : Type 0}
    (unpack : List Buffer → Unpacking S → Option (Unpacking S)) where
  Outcome : Type 0
  Outcome = Vcluster × Unpacking S

  abbrev counted : ℕ → Vcluster × Unpacking S → Vcluster × Unpacking S
  counted k r = (counting k r.0, r.1)

  -- What follows the reordering
  abbrev finish : ℕ → Unpacking S → Vcluster × List Buffer → Option (Vcluster × Unpacking S)
  finish j u r = free_mem j r.0 >>= λ t. unpack r.1 u >>= λ v. some (t, v)

  freed_counted :
      (j k : ℕ) (u : Unpacking S) (s : Vcluster) (bs : List Buffer) (o : Option PackMem)
      → (elim o [
        | none ↦ none
        | some x ↦ some (counting k (record s { mem = update s.mem j none }))
      ]
          >>= λ t. unpack bs u >>= λ v. some (t, v))
        ≡ ((elim o [ none ↦ none | some x ↦ some (record s { mem = update s.mem j none }) ] >>= λ t.
              unpack bs u >>= λ v. some (t, v))
            >>= λ r. some (counted k r))
  freed_counted j k u s bs none = refl
  freed_counted j k u s bs (some x) =
      bind_ends (unpack bs u) (λ v. some (record s { mem = update s.mem j none }, v)) _ (counted k)
        (λ v. refl)

  finish-counted :
      (j k : ℕ) (u : Unpacking S) (r : Vcluster × List Buffer)
      → finish j u (counting k r.0, r.1) ≡ (finish j u r >>= λ x. some (counted k x))
  unfolding free_mem
  finish-counted j k u r = freed_counted j k u r.0 r.1 (r.0.mem j)

  reordered_counted :
      (j k caller : ℕ) (u : Unpacking S) (s : Vcluster)
      → (reorder_at sort j caller (counting k s) >>= finish j u)
        ≡ ((reorder_at sort j caller s >>= finish j u) >>= λ r. some (counted k r))
  unfolding reorder_at
  reordered_counted j k caller u s = go (
      reorder_buffer sort (s.nbx.mem.recv_buf s.pcnt) (s.nbx.mem.prc caller) (s.nbx.mem.tags j)
        (s.nbx.mem.sz j))
    where
      place : Reordered → Vcluster × List Buffer
      place o =
          let mem = s.nbx.mem in
          let mem' : Memory = record mem {
            recv_buf = update mem.recv_buf s.pcnt o.recv_buf;
            prc = update mem.prc caller o.prc;
            sz = update mem.sz j o.sz_recv;
          } in
          (record s { nbx = record s.nbx { mem = mem' } }, o.recv_buf)

      go :
          (o : Option Reordered)
          → ((o >>= λ x. some (counting k (place x).0, (place x).1)) >>= finish j u)
            ≡ (((o >>= λ x. some (place x)) >>= finish j u) >>= λ r. some (counted k r))
      go none = refl
      go (some x) = finish-counted j k u (place x)

  -- What the completion does depends on the counter of the calls made in nothing else.
  complete-counted :
      (j k caller : ℕ) (a : Answers) (u : Unpacking S) (s : Vcluster)
      → complete m sort unpack j caller a u (counting k s)
        ≡ (complete m sort unpack j caller a u s >>= λ r. some (counted k r))
  unfolding complete
  complete-counted j k caller a u s = elim (Bool-cases (leb nqueue j)) [
    | inl e ↦ rw e refl
    | inr e ↦ rw e (
        bind_ends (nbx_wait m a s.nbx)
          (λ n. reorder_at sort j caller (record s { nbx = with_contents a n }) >>= finish j u)
          (λ n.
            reorder_at sort j caller (counting k (record s { nbx = with_contents a n }))
            >>= finish j u)
          (counted k) (λ n. reordered_counted j k caller u (record s { nbx = with_contents a n })))
  ]

  -- The wait for the only call that is outstanding resets the counters.
  reset_counted :
      (t : Vcluster) (r : Vcluster)
      → t.scnt ≡ 0
      → t.pcnt ≡ 0
      → r.scnt ≡ t.scnt
      → r.pcnt ≡ t.pcnt
      → next_wait (counting (t.scnt + 1) r) ≡ r
  unfolding next_wait
  reset_counted t r e f e' f' =
      let last : (t.scnt + 1 == r.pcnt + 1) ≡ true = ground arith in
      rw last (ap₂ (λ (x y : ℕ). record r { scnt = x; pcnt = y }) (sym (e' ∙ e)) (sym (f' ∙ f)))

  waited_alone :
      (t : Vcluster) (o : Option (Vcluster × Unpacking S))
      → t.scnt ≡ 0
      → t.pcnt ≡ 0
      → OnSome (λ r. (r.0.scnt ≡ t.scnt) × (r.0.pcnt ≡ t.pcnt)) o
      → ((o >>= λ r. some (counted (t.scnt + 1) r)) >>= λ r. some (next_wait r.0, r.1)) ≡ o
  waited_alone t none e f h = refl
  waited_alone t (some r) e f h =
      ap (λ (x : Vcluster). some (x, r.1)) (reset_counted t r.0 e f h.0 h.1)

  prepared_alone :
      (r : Request) (a : Answers) (u : Unpacking S) (s : Vcluster) (o : Option Vcluster)
      → s.scnt ≡ 0
      → s.pcnt ≡ 0
      → OnSome (Placed (packed_of r) s.scnt s) o
      → ((o >>= λ t. some (counting (t.scnt + 1) t)) >>= λ t.
          ssend_recv_wait m sort unpack r.prc_recv a u t)
        ≡ (o >>= λ t. complete m sort unpack t.scnt r.prc_recv a u t)
  unfolding ssend_recv_wait
  prepared_alone r a u s none e f h = refl
  prepared_alone r a u s (some t) e f h =
      let same : t.pcnt ≡ t.scnt = omega (arith, e, f, h.scnt, h.pcnt) in
      let done = complete m sort unpack t.pcnt r.prc_recv a u t in
      ap (λ (x : Option (Vcluster × Unpacking S)). x >>= λ y. some (next_wait y.0, y.1))
        (complete-counted t.pcnt (t.scnt + 1) r.prc_recv a u t)
      ∙ waited_alone t done (h.scnt ∙ e) (h.pcnt ∙ f) (
          OnSome-mono _ _ done (λ x k. (k.1.scnt, k.1.pcnt))
            (complete-IsFreed m sort unpack t.pcnt r.prc_recv a u t))
      ∙ ap (λ j. complete m sort unpack j r.prc_recv a u t) same

  -- Where no call is outstanding, SSendRecvAsync with SSendRecvWait behind it, on the same list of
  -- senders, does what SSendRecv does, whatever MPI answers: the same state and the same receiving
  -- object, and it fails where SSendRecv does.
  pub async_wait-ssend_recv :
      (r : Request) (a : Answers) (u : Unpacking S) (s : Vcluster)
      → s.scnt ≡ 0
      → s.pcnt ≡ 0
      → (ssend_recv_async r s >>= λ t. ssend_recv_wait m sort unpack r.prc_recv a u t)
        ≡ ssend_recv m sort unpack r a u s
  unfolding ssend_recv_async ssend_recv
  async_wait-ssend_recv r a u s e f =
      prepared_alone r a u s (prepare_send_buffer r s) e f (prepare-Placed r s)
