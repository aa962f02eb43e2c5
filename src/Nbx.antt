-- ===== src/Nbx.antt =====
-- VCluster/VCluster_base.hpp, the class Vcluster_base: the exchanges of messages with the other
-- processes as one process sees them. State is the class's fields; the rest posts, progresses and
-- completes the exchanges.
pub mod State
pub mod Post
pub mod Progress
pub mod Wait
pub mod Posting
pub mod Vectors
pub mod Opening
pub mod Frame
pub mod Barrier
pub mod Entering
pub mod Completion
pub mod Requests
pub mod WaitSlot
pub mod WaitAll
pub mod Returning
pub mod Sync
pub mod Queue
pub mod Reuse
pub mod Collective
pub mod Examples
