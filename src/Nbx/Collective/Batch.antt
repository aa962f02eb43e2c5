-- ===== src/Nbx/Collective/Batch.antt =====
-- What a batch of operations asks of MPI, and that execute waits for all of it
-- (VCluster/VCluster_base.hpp).
use openfpm_vcluster.Prelude.{
  ℕ, suc, ◌*◌, ◌≡◌, refl, sym, ap, ◌∙◌, subst, Option, none, some, List, [], ◌∷◌, ◌++◌, All, length,
  append_assoc, append-nil, if◌then◌else◌, ◌==◌, arith,
}
use openfpm_vcluster.Wire.{
  CType, mpi_byte, Transfer, transfer, isend_buffer, irecv_buffer, isend_vector, irecv_vector,
  ireduce, igather, ibcast_vector,
}
use openfpm_vcluster.Tags.{point_tag}
use openfpm_vcluster.Nbx.State.{
  ReduceOp, mpi_sum, mpi_max, mpi_min, buffer, Call, waitall, isend, irecv, iallreduce, iallgather,
  ibcast, Nbx, post,
}
use openfpm_vcluster.Nbx.Post.{send, recv, send_vector, recv_vector}
use openfpm_vcluster.Nbx.Wait.{execute}
use openfpm_vcluster.Nbx.Requests.{
  SameQueue, queue_refl, queue_trans, execute-req, execute-slots, execute-counters,
}
use openfpm_vcluster.Nbx.Collective.{
  all_reduce, sum, max, min, all_gather, bcast_linear, bcast_properties, Operation, send_bytes,
  receive_bytes, send_elements, receive_elements, add_up, greatest, least, gather, broadcast,
  broadcast_properties, perform, perform_all,
}

-- The reductions are of types that MPI_IallreduceW knows.
abbrev pub IsKnown : CType → Type 0
IsKnown c = (t : Transfer) × (ireduce c ≡ some t)

abbrev pub CanPost : Operation → Type 0
CanPost (add_up c) = IsKnown c
CanPost (greatest c) = IsKnown c
CanPost (least c) = IsKnown c
CanPost _ = Unit

-- What an operation asks of MPI: a reduction of one number, or a broadcast of each property
abbrev pub reduction : ReduceOp → CType → List Call
reduction op c = elim (ireduce c) [ some t ↦ iallreduce op t ∷ [] | none ↦ [] ]

abbrev pub property_broadcasts : ℕ → List ℕ → ℕ → List Call
property_broadcasts root [] n = []
property_broadcasts root (w ∷ ws) n =
    ibcast root (transfer (n * w) mpi_byte) ∷ property_broadcasts root ws n

abbrev pub requests_of : Operation → List Call
requests_of (send_bytes p t v z) = isend p (point_tag t) v (isend_buffer z) ∷ []
requests_of (receive_bytes p t v z) = irecv p (point_tag t) v (irecv_buffer z) ∷ []
requests_of (send_elements p t c v n) = isend p (point_tag t) (buffer v) (isend_vector c n) ∷ []
requests_of (receive_elements p t c v n) = irecv p (point_tag t) (buffer v) (irecv_vector c n) ∷ []
requests_of (add_up c) = reduction mpi_sum c
requests_of (greatest c) = reduction mpi_max c
requests_of (least c) = reduction mpi_min c
requests_of (gather c) = iallgather (igather c 1) ∷ []
requests_of (broadcast root c n) = ibcast root (ibcast_vector c n) ∷ []
requests_of (broadcast_properties root ws n) = property_broadcasts root ws n

abbrev pub requests : List Operation → List Call
requests [] = []
requests (o ∷ os) = requests_of o ++ requests os

-- The MPI_Waitall for `n` requests
abbrev pub waited : ℕ → List Call
waited n = if n == 0 then [] else waitall n ∷ []

waited-suc : (n : ℕ) → waitall (suc n) ∷ [] ≡ waited (suc n)
waited-suc n = ground arith

-- `t` is `s` with the requests `cs` posted, in order, and the same queue of exchanges.
pub record Adds {U : Type 0} (cs : List Call) (s t : Nbx U) : Type 0 where
  pub req : t.req ≡ s.req ++ cs
  pub calls : t.calls ≡ s.calls ++ cs
  pub queue : SameQueue s t

module _ {U : Type 0} where
  one-Adds : (c : Call) (s : Nbx U) → Adds (c ∷ []) s (post c s)
  one-Adds c s = record {
    req = refl;
    calls = refl;
    queue = record {
      cnt = refl;
      cycle = refl;
      base = refl;
      queued = refl;
      stat = refl;
      sizes = refl;
      slots = refl;
    };
  }

  nothing-Adds : (s : Nbx U) → Adds [] s s
  nothing-Adds s = record {
    req = sym (append-nil s.req);
    calls = sym (append-nil s.calls);
    queue = queue_refl s;
  }

  Adds-trans : (cs ds : List Call) (s t u : Nbx U) → Adds cs s t → Adds ds t u → Adds (cs ++ ds) s u
  Adds-trans cs ds s t u f g = record {
    req = g.req ∙ ap (λ x. x ++ ds) f.req ∙ append_assoc s.req cs ds;
    calls = g.calls ∙ ap (λ x. x ++ ds) f.calls ∙ append_assoc s.calls cs ds;
    queue = queue_trans s t u f.queue g.queue;
  }

  -- An operation that is performed posts its requests.
  Performs : List Call → Nbx U → Option (Nbx U) → Type 0
  Performs cs s o = (t : Nbx U) × (o ≡ some t) × Adds cs s t

  one-Performs : (c : Call) (s : Nbx U) → Performs (c ∷ []) s (some (post c s))
  unfolding Performs
  one-Performs c s = (post c s, refl, one-Adds c s)

  all_reduce-Performs :
      (op : ReduceOp) (c : CType) (s : Nbx U)
      → IsKnown c
      → Performs (reduction op c) s (all_reduce op c s)
  unfolding all_reduce Performs
  all_reduce-Performs op c s (t, e) =
      let one : reduction op c ≡ iallreduce op t ∷ [] = rw (e, reduction) refl in
      let made : all_reduce op c s ≡ some (post (iallreduce op t) s) = rw (e, all_reduce) refl in
      (
        post (iallreduce op t) s,
        made,
        subst (λ cs. Adds cs s (post (iallreduce op t) s)) (sym one) (one-Adds (iallreduce op t) s),
      )

  bcast_properties-Adds :
      (root : ℕ) (ws : List ℕ) (n : ℕ) (s : Nbx U)
      → Adds (property_broadcasts root ws n) s (bcast_properties root ws n s)
  unfolding bcast_properties
  bcast_properties-Adds root [] n s = nothing-Adds s
  bcast_properties-Adds root (w ∷ ws) n s =
      Adds-trans (ibcast root (transfer (n * w) mpi_byte) ∷ []) (property_broadcasts root ws n) s _
        _ (one-Adds _ s) (bcast_properties-Adds root ws n _)

  perform-Performs :
      (o : Operation) (s : Nbx U) → CanPost o → Performs (requests_of o) s (perform o s)
  unfolding perform send recv send_vector recv_vector sum max min all_gather bcast_linear Performs
  perform-Performs (send_bytes p t v z) s k = one-Performs _ s
  perform-Performs (receive_bytes p t v z) s k = one-Performs _ s
  perform-Performs (send_elements p t c v n) s k = one-Performs _ s
  perform-Performs (receive_elements p t c v n) s k = one-Performs _ s
  perform-Performs (add_up c) s k = all_reduce-Performs _ c s k
  perform-Performs (greatest c) s k = all_reduce-Performs _ c s k
  perform-Performs (least c) s k = all_reduce-Performs _ c s k
  perform-Performs (gather c) s k = one-Performs _ s
  perform-Performs (broadcast root c n) s k = one-Performs _ s
  perform-Performs (broadcast_properties root ws n) s k =
      (bcast_properties root ws n s, refl, bcast_properties-Adds root ws n s)

  perform_all-Performs :
      (os : List Operation) (s : Nbx U)
      → All CanPost os
      → Performs (requests os) s (perform_all os s)
  unfolding perform_all Performs
  perform_all-Performs [] s k = (s, refl, nothing-Adds s)
  perform_all-Performs (o ∷ os) s (k, ks) =
      let (t, e, f) = perform-Performs o s k in
      let (u, e', g) = perform_all-Performs os t ks in
      (u, rw e e', Adds-trans (requests_of o) (requests os) s t u f g)

  execute-nil : (vs : List ℕ) (s : Nbx U) → s.req ≡ [] → (execute vs s).calls ≡ s.calls
  unfolding execute
  execute-nil vs s e = ground arith

  execute-calls_at :
      (vs : List ℕ) (s : Nbx U) (r : List Call)
      → s.req ≡ r
      → (execute vs s).calls ≡ s.calls ++ waited (length r)
  unfolding execute
  execute-calls_at vs s [] e = execute-nil vs s e ∙ sym (append-nil s.calls)
  execute-calls_at vs s (c ∷ r) e = rw (e, execute) (ap (λ x. s.calls ++ x) (waited-suc (length r)))

  execute-stat : (vs : List ℕ) (s : Nbx U) → s.stat ≡ 0 → (execute vs s).stat ≡ 0
  unfolding execute
  execute-stat vs s h = ground arith

  -- A batch of sends, receives and collective operations, with reductions only of types that have
  -- one, made where no request is under way: it posts, in order, one request for each operation (for
  -- a broadcast of a vector with its properties apart, one for each property, of the property's
  -- bytes), with the operation's process or root, tag, reduction, datatype and count. One execute
  -- then waits for all of them at once and for no others; no request is left, and the queue of
  -- exchanges is as it was.
  pub execute-perform_all :
      (vs : List ℕ) (os : List Operation) (s : Nbx U)
      → All CanPost os
      → s.req ≡ []
      → s.stat ≡ 0
      → (u : Nbx U) × (perform_all os s ≡ some u)
        × (u.req ≡ requests os)
        × (u.calls ≡ s.calls ++ requests os)
        × ((execute vs u).req ≡ [])
        × ((execute vs u).stat ≡ 0)
        × ((execute vs u).calls ≡ s.calls ++ requests os ++ waited (length (requests os)))
        × ((execute vs u).nbx_cnt ≡ s.nbx_cnt)
        × ((execute vs u).queued ≡ s.queued)
        × ((execute vs u).slots ≡ s.slots)
  unfolding Performs
  execute-perform_all vs os s k e z =
      let (u, made, f) = perform_all-Performs os s k in
      let c = execute-counters vs u in
      let posted : u.req ≡ requests os = f.req ∙ ap (λ x. x ++ requests os) e in
      (
        u,
        made,
        posted,
        f.calls,
        execute-req vs u,
        execute-stat vs u (f.queue.stat ∙ z),
        execute-calls_at vs u (requests os) posted
            ∙ ap (λ x. x ++ waited (length (requests os))) f.calls,
        c.0 ∙ f.queue.cnt,
        c.2 ∙ f.queue.queued,
        execute-slots vs u ∙ f.queue.slots,
      )
