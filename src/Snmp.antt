-- ===== src/Snmp.antt =====
-- pkg/snmp: the metrics that are made of the values of an agent.
pub mod Metric
pub mod Printer
pub mod Queue
pub mod Protocol
