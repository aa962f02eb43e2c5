-- ===== src/Lib.antt =====
-- OpenFPM's virtual cluster (src/VCluster, src/MPI_wrapper, src/util): one process's part in the exchange
-- of messages and data structures with the other processes of an MPI job.
--
-- The parts, and how they work together. A process hands MPI buffers through the typed wrappers
-- (src/MPI_wrapper). The class Vcluster_base (src/VCluster/VCluster_base.hpp) exchanges messages among
-- processes that do not know who will send to them: queue_all_sends posts one synchronous send for each
-- message, the process polls (progressCommunication) until its sends are acknowledged, enters a
-- barrier, and polls until the barrier is complete. Up to four such exchanges can be queued; a counter,
-- NBX_cnt, and the position in the queue are coded in the message tags, so that a message is not taken
-- for one of another exchange. Where the receivers are known, messages are sent and received directly.
-- The class Vcluster (src/VCluster/VCluster.hpp) gives it call-backs that make room for each message,
-- and afterwards orders the received buffers by sender. Its calls SSendRecv, SGather and SScatter pack
-- objects into messages and make objects of the messages that come
-- (src/VCluster/VCluster_meta_function.hpp); their asynchronous halves keep up to four calls
-- outstanding. openfpm_init and openfpm_finalize (src/VCluster/VCluster.cpp) make and delete the
-- global instances.
--
-- The files, and the code that each is about.
--   Prelude             the tests, options and lists that the models share
--   Wire                src/MPI_wrapper: isend_buffer and irecv_buffer are MPI_IsendWB::send and
--                       MPI_IrecvWB::recv, isend_vector, irecv_vector, ibcast_vector, igather and ireduce
--                       the typed wrappers; issend_buffer, probe_size and recv_probed are the size
--                       arithmetic of queue_all_sends and progressCommunication
--   Tags                the tags of VCluster_base.hpp, and the constructor's nbx_cycle
--   Nbx                 the class Vcluster_base. Nbx.State has its fields: a Slot is one index of its
--                       arrays of NQUEUE entries, `queued` is NBX_prc_qcnt + 1, and `calls` lists what was
--                       called of MPI and printed. Nbx.Post has queue_all_sends, send, recv and the
--                       overloads of sendrecvMultipleMessagesNBXAsync (async_unknown, async_known,
--                       async_known_prc); Nbx.Progress has progressCommunication; Nbx.Wait has execute,
--                       the overloads of sendrecvMultipleMessagesNBX (sync_unknown, sync_known,
--                       sync_known_prc) and sendrecvMultipleMessagesNBXWait (nbx_wait); Nbx.Vectors has the
--                       overloads for vectors of vectors; Nbx.Collective has
--                       sum, max, min, allGather and Bcast. A reduction of a type that
--                       MPI_IallreduceW does not know leaves a request uninitialised: it is `none`.
--                       The modules below Nbx prove what these do.
--   Semantic.Alloc      base_info, msg_alloc, msg_alloc_known and reset_recv_buf of VCluster.hpp
--   Semantic.Reorder    reorder_buffer of VCluster.hpp
--   Semantic.Delivery   the polling, the call-backs and reorder_buffer together; Semantic.Alloc.Hearing
--                       says which message a round of polling adds to which vectors; Turn, Queue and
--                       Several follow the wait through a queue of several exchanges, with Kept (what
--                       the polling for later positions leaves alone), Queued and Waiting
--   Semantic.Pack       what is sent: set_size_buffers, set_buffers, construct_prc, packing_request and
--                       packing are the functions of pack_unpack_cond_with_prp and
--                       pack_unpack_cond_with_prp_inte_lin (VCluster_meta_function.hpp), request_all and
--                       pack_all the loops of prepare_send_buffer over the objects. Semantic.Pack.Unpack
--                       has the loops that make objects of the received buffers: serial_loop,
--                       linear_loop and interleaved_loop are unpack_selector_with_prp and
--                       unpack_selector_with_prp_lin, take_pieces is process_receive_mem_traits_inte, and
--                       process_receive_buffer is process_receive_buffer_with_prp (VCluster.hpp).
--                       Semantic.Pack.Network says what arrives of the messages of all processes.
--   Semantic.Send       prepare_send_buffer, SSendRecv (ssend_recv), SSendRecvAsync (ssend_recv_async)
--                       and SSendRecvWait (ssend_recv_wait), with the variants P and P_op. A Vcluster has
--                       NBX_prc_scnt, NBX_prc_pcnt, and the memory that mem[j] and pmem[j] point at;
--                       Semantic.Send.Fifo has the contract of the asynchronous calls.
--                       Semantic.Send.Merging follows the messages of all processes through
--                       SSendRecv of one of them, for vectors, and Semantic.Send.Serials for
--                       serialized objects. Semantic.Send.Announced, KnownExchange and KnownPairing
--                       are about calls with known senders, Semantic.Send.Variants about the
--                       overloads of SSendRecvP, and Semantic.Send.Session has the constructors
--                       (construct_base, construct_vcluster).
--                       Semantic.Send.Next, Asynchronous, Calling, Waits, WaitAll and InFlight are about
--                       several exchanges with unknown senders that are in flight at once: call_each
--                       and wait_each are a caller's calls, and then its waits.
--   Semantic.Merge      the operations that merge a received vector (VCluster_meta_function.hpp):
--                       recv_add, recv_merge, recv_merge_gpu, gg_recv_merge and
--                       gg_recv_merge_run_device are the classes op_ssend_ and these names
--   Semantic.Collect    SScatter (s_scatter) and SGather (s_gather), and what they do at the root and
--                       elsewhere
--   Runtime             the global pointers, the constructor and destructor as far as they count the
--                       instances and start and end MPI, openfpm_init, openfpm_init_vcl,
--                       openfpm_finalize and create_vcluster; Runtime.Programs adds the instances that a
--                       program makes itself, and Runtime.Ending follows one to its end
--
-- How MPI enters. MPI is not code of the repository. What it answers (the message that a probe shows,
-- whether the sends are acknowledged, whether the barrier is complete, the sizes that arrive, the bytes
-- that it writes to the receive buffers) is an argument: a Poll for each round of polling, and Answers
-- for a wait; every statement holds whatever these are. MPI_Get_count and the datatype sizes are the
-- record Mpi, with the standard's rules as IsStandard and the platform's sizes as IsAbi; Wire.Platform
-- shows an instance. The sort of openfpm::vector is a parameter with IsSort. The memory of the derived
-- class is a type parameter of Nbx, on which the call-back works.
--
-- Bounds. Sizes and counts are natural numbers; a count is cut to the 32 bits of MPI's `int`, and the
-- statistics to 64 bits. Products with a number that the caller gives are cut to 64 bits; the size of
-- memory that the process holds fits them, and is not cut. Tags are not cut: the statements on them
-- bound NBX_cnt. The polling loops run on the list of MPI's answers, and `none` is a list that ends
-- before the loop does; the statements that a call returns ask of the list only that it contains rounds
-- in which the exchange can end. `none` also stands for a remainder by 0, an access past an array, and a
-- message that MPI cannot count.
--
-- The loop over the received buffers runs on as many rounds as there are buffers, which is enough, as
-- each round takes one at least. `none` is also a pointer that is deleted twice or followed after that.
--
-- What the library openfpm_data does is not code of the repository: the Packer enters as the bytes that
-- it asks for and writes (Serial), the Unpacker as a function, what the merges call of the receiving
-- vector as the record Receiver, with IsReceiver, and a vector as its number of elements and its pieces
-- of memory. During the polling a receive buffer has its length, and zeros; when the wait is over MPI
-- has written the bytes of Answers. ShowsAll states what MPI's completion of the barrier promises.
--
-- Not modelled: unpack_each_prop_buffer (src/VCluster/VCluster_meta_function.hpp), which nothing uses,
-- GPU memory, the signal handler, the PETSc part of the initialization, performance reports, the text of
-- messages and log files, and the tests. The log is the one that VERBOSE_TEST compiles.
pub mod Prelude
pub mod Wire
pub mod Tags
pub mod Nbx
pub mod Semantic
pub mod Runtime
