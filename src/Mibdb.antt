-- ===== src/Mibdb.antt =====
-- pkg/snmp/mibdb: the database of definitions.
pub mod OidBranch
pub mod Module
pub mod Database
pub mod Index
pub mod Object
pub mod Compile
pub mod TypeReference
pub mod Pattern
pub mod Macro
