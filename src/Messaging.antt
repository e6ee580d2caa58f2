-- ===== src/Messaging.antt =====
-- pkg/messaging: the broker that turns events of the cluster into updates of the proxies.
pub mod Events
pub mod Broker
pub mod Batches
pub mod Windows
pub mod Times
pub mod Refinement
pub mod Begun
pub mod Endings
pub mod Latency
