-- ===== src/DistWs.antt =====
-- src/hcupc_spmd_distWS_common.cpp: the distributed work stealing of one place.
pub mod InFlight
pub mod ThiefQueue
pub mod Steal
pub mod Lifeline
pub mod Serve
pub mod Hunt
pub mod Start
