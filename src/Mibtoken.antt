-- ===== src/Mibtoken.antt =====
-- pkg/snmp/mibtoken: the tokens of a MIB and the lists of them that the parser reads from.
pub mod Token
pub mod Tokens
pub mod Projection
pub mod Splitter
pub mod Scanner
