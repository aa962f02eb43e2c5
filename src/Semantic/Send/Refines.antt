-- ===== src/Semantic/Send/Refines.antt =====
-- That the calls keep the contract of the asynchronous calls (VCluster/VCluster.hpp).
use openfpm_vcluster.Prelude.{
  ℕ, ◌<◌, ◌≡◌, refl, Option, some, List, [], ◌∷◌, on_some, OnSome, >>=-OnSome, OnSome-mono,
}
use openfpm_vcluster.Wire.{Mpi}
use openfpm_vcluster.Nbx.Wait.{Answers}
use openfpm_vcluster.Semantic.Reorder.{Buffer, Entry}
use openfpm_vcluster.Semantic.Pack.Unpack.{Unpacking}
use openfpm_vcluster.Semantic.Send.{
  Vcluster, Request, packed_of, prepare_send_buffer, complete, ssend_recv, ssend_recv_async,
  ssend_recv_wait,
}
use openfpm_vcluster.Semantic.Send.Positions.{Placed, IsFreed, prepare-Placed, complete-IsFreed}
use openfpm_vcluster.Semantic.Send.Fifo.{
  Outstanding, Event, called, waited, exchanged, react, react_all, Represents, react-called,
  react-exchanged, react-waited,
}

module _ (m : Mpi) (sort : List Entry → List Entry) {S : Type 0}
    (unpack : List Buffer → Unpacking S → Option (Unpacking S)) where
  -- A call that returned
  pub data CallReturns : Vcluster → Event → Vcluster → Type 0 where
    async :
        {s t : Vcluster} (r : Request)
        → ssend_recv_async r s ≡ some t
        → CallReturns s (called (packed_of r)) t
    wait :
        {s t : Vcluster} {v : Unpacking S} (caller : ℕ) (a : Answers) (u : Unpacking S)
        → ssend_recv_wait m sort unpack caller a u s ≡ some (t, v)
        → CallReturns s waited t
    sync :
        {s t : Vcluster} {v : Unpacking S} (r : Request) (a : Answers) (u : Unpacking S)
        → ssend_recv m sort unpack r a u s ≡ some (t, v)
        → CallReturns s exchanged t

  -- Calls that were made one after the other
  pub data AllReturn : Vcluster → List Event → Vcluster → Type 0 where
    stop : {s : Vcluster} → AllReturn s [] s
    step :
        {s t u : Vcluster} {e : Event} {es : List Event}
        → CallReturns s e t
        → AllReturn t es u
        → AllReturn s (e ∷ es) u

  abbrev Kept : Event → Outstanding → Vcluster → Type 0
  Kept e o t = (p : Outstanding) × (react e o ≡ some p) × Represents p t

  async-Kept :
      (r : Request) (o : Outstanding) (s : Vcluster)
      → Represents o s
      → OnSome (Kept (called (packed_of r)) o) (ssend_recv_async r s)
  unfolding ssend_recv_async
  async-Kept r o s h = >>=-OnSome (Kept (called (packed_of r)) o) (prepare_send_buffer r s) _ λ t q.
      react-called o s t (packed_of r) h
        (on_some (Placed (packed_of r) s.scnt s) _ q (prepare-Placed r s))

  wait-Kept :
      (caller : ℕ) (a : Answers) (u : Unpacking S) (o : Outstanding) (s : Vcluster)
      → Represents o s
      → OnSome (λ r. Kept waited o r.0) (ssend_recv_wait m sort unpack caller a u s)
  unfolding ssend_recv_wait
  wait-Kept caller a u o s h =
      >>=-OnSome (λ r. Kept waited o r.0) (complete m sort unpack s.pcnt caller a u s) _
        λ r q.
          let f =
            on_some (λ r. (s.pcnt < 4) × IsFreed s.pcnt s r.0) _ q
              (complete-IsFreed m sort unpack s.pcnt caller a u s) in
          react-waited o.made o.held s r.0 h f.1

  sync-Kept :
      (r : Request) (a : Answers) (u : Unpacking S) (o : Outstanding) (s : Vcluster)
      → Represents o s
      → OnSome (λ x. Kept exchanged o x.0) (ssend_recv m sort unpack r a u s)
  unfolding ssend_recv
  sync-Kept r a u o s h =
      >>=-OnSome (λ x. Kept exchanged o x.0) (prepare_send_buffer r s) _
        λ t q.
          let f = on_some (Placed (packed_of r) s.scnt s) _ q (prepare-Placed r s) in
          OnSome-mono (λ x. (t.scnt < 4) × IsFreed t.scnt t x.0) (λ x. Kept exchanged o x.0) _
            (λ x g. react-exchanged o s t x.0 (packed_of r) h f g.1)
            (complete-IsFreed m sort unpack t.scnt r.prc_recv a u t)

  step-Kept :
      (e : Event) (o : Outstanding) (s t : Vcluster)
      → Represents o s
      → CallReturns s e t
      → Kept e o t
  step-Kept e o s t h (async r q) = on_some (Kept e o) _ q (async-Kept r o s h)
  step-Kept e o s t h (wait caller a u q) =
      on_some (λ x. Kept e o x.0) _ q (wait-Kept caller a u o s h)
  step-Kept e o s t h (sync r a u q) = on_some (λ x. Kept e o x.0) _ q (sync-Kept r a u o s h)

  -- From counters and arrays that stand for outstanding calls, any calls that return, one after the
  -- other, do what the contract says of them, and the counters and arrays stand for the result:
  -- each asynchronous call takes the next position, each wait deletes the memory of the oldest
  -- call that is outstanding, and of no other, a synchronous call what it made itself; never more
  -- than four calls are made before none is outstanding; and the memory that is not deleted is
  -- that of the outstanding calls.
  pub run-react_all :
      (es : List Event) (o : Outstanding) (s t : Vcluster)
      → Represents o s
      → AllReturn s es t
      → (p : Outstanding) × (react_all es o ≡ some p) × Represents p t
  unfolding react_all
  run-react_all es o s t h stop = (o, refl, h)
  run-react_all es o s t h (step {t = t'} {e = e} {es = es'} x rest) =
      let (p, q, k) = step-Kept e o s t' h x in
      let (p', q', k') = run-react_all es' p t' t k rest in (p', rw q q', k')
