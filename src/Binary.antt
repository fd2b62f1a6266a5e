-- ===== src/Binary.antt =====
-- pkg/asn1/asn1binary: the type-length-value frame and what stands around it.
pub mod Error
pub mod Value
pub mod Charset
pub mod Mapping
pub mod Parameters
pub mod Interface
pub mod Registry
pub mod Codec
