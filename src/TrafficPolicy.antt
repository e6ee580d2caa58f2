-- ===== src/TrafficPolicy.antt =====
-- pkg/trafficpolicy: the traffic policies of the control plane and the routines on them.
pub mod Types
pub mod Equality
pub mod Rules
pub mod Hostnames
