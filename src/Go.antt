-- ===== src/Go.antt =====
-- pkg/asn1/asn1go: the ASN.1 types that pack and unpack themselves.
pub mod Integer
pub mod Oid
pub mod Basic
pub mod Decimal
pub mod Text
