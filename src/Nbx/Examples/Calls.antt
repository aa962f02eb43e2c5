-- ===== src/Nbx/Examples/Calls.antt =====
-- The statements on calls and polling, at a small exchange.
use openfpm_vcluster.Wire.{ireduce}
use openfpm_vcluster.Prelude.{length, List, ◌++◌, ℕ, ◌≡◌, refl, some, [], ◌∷◌, inl, arith, All}
use openfpm_vcluster.Nbx.State.{Nbx, buffer}
use openfpm_vcluster.Nbx.Post.{queue_all_sends, enqueue}
use openfpm_vcluster.Nbx.Posting.{sparse_calls, with_posted}
use openfpm_vcluster.Nbx.Vectors.{data_messages, element_messages, vectors_messages}
use openfpm_vcluster.Nbx.Opening.{queue_all_sends-with_posted}
use openfpm_vcluster.Nbx.Queue.{DecodesTo, posted-DecodesTo}
use openfpm_vcluster.Nbx.Examples.{fresh, three_messages}
use openfpm_vcluster.Wire.{double_c, other}
use openfpm_vcluster.Nbx.Wait.{execute}
use openfpm_vcluster.Nbx.Collective.{
  Operation, send_bytes, add_up, gather, broadcast_properties, perform_all,
}
use openfpm_vcluster.Nbx.Collective.Batch.{CanPost, requests, waited, execute-perform_all}

queue_all_sends-with_posted_example :
    queue_all_sends three_messages (enqueue fresh)
    ≡ with_posted 3 0 0 three_messages (enqueue fresh)
queue_all_sends-with_posted_example =
    queue_all_sends-with_posted three_messages (enqueue fresh) (refl, inl refl) (omega arith)

-- Vectors of three elements and of none, of four bytes each
vectors_messages_example :
    (data_messages 4
        (1 ∷ 2 ∷ [])
        (record { address = 100; size = 3 } ∷ record { address = 200; size = 0 } ∷ [])
      ≡ some (record { sz = 12; prc = 1; ptr = 100 } ∷ record { sz = 0; prc = 2; ptr = 200 } ∷ []))
    × (element_messages
          (1 ∷ 2 ∷ [])
          (record { address = 100; size = 3 } ∷ record { address = 200; size = 0 } ∷ [])
        ≡ some (record { sz = 3; prc = 1; ptr = 100 } ∷ record { sz = 0; prc = 2; ptr = 200 } ∷ []))
vectors_messages_example =
    vectors_messages 4 (1 ∷ 2 ∷ [])
      (record { address = 100; size = 3 } ∷ record { address = 200; size = 0 } ∷ []) refl
      (omega arith)

posted-DecodesTo_example : All (DecodesTo 3 2) (sparse_calls 3 2 0 three_messages)
posted-DecodesTo_example = posted-DecodesTo 3 2 three_messages (omega arith) (omega arith)

abbrev batch : List Operation
batch =
    send_bytes 1 3 (buffer 100) 24
    ∷ add_up double_c
    ∷ broadcast_properties 0 (4 ∷ 8 ∷ []) 10
    ∷ gather (other 3)
    ∷ []

batch-CanPost : All CanPost batch
unfolding ireduce
batch-CanPost = (tt, ((_, refl), (tt, (tt, tt))))

execute-perform_all_example :
    (u : Nbx ℕ) × (perform_all batch fresh ≡ some u)
    × (u.req ≡ requests batch)
    × (u.calls ≡ requests batch)
    × ((execute [] u).req ≡ [])
    × ((execute [] u).stat ≡ 0)
    × ((execute [] u).calls ≡ requests batch ++ waited (length (requests batch)))
    × ((execute [] u).nbx_cnt ≡ 3)
    × ((execute [] u).queued ≡ 0)
    × ((execute [] u).slots ≡ fresh.slots)
execute-perform_all_example = execute-perform_all [] batch fresh batch-CanPost refl refl
