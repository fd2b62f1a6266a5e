-- ===== src/Mapper.antt =====
-- cmd/dsnet-mapper: the hosts that the mapper finds, the steps of a scan and the checks of a target.
pub mod Hosts
pub mod Manager
pub mod Target
