-- ===== src/Semantic.antt =====
-- VCluster/VCluster.hpp, the class Vcluster: the exchange of data structures on top of the exchange of
-- messages.
pub mod Alloc
pub mod Reorder
pub mod Pack
pub mod Delivery
pub mod Send
pub mod Collect
pub mod Merge
mod Examples
