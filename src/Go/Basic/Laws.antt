-- ===== src/Go/Basic/Laws.antt =====
-- The basic types are lossless.
use net_mapper.Prelude.{arith}
use net_mapper.Binary.Interface.{IsLossless}
use net_mapper.Go.Basic.{
  octet_string, null, bit_string, pack_octet_string, unpack_octet_string, pack_null, unpack_null,
  pack_bit_string, unpack_bit_string,
}

pub octet_string-IsLossless : IsLossless octet_string
unfolding pack_octet_string unpack_octet_string
octet_string-IsLossless = record { unpack-pack = λ v target e bytes h. cc }

pub null-IsLossless : IsLossless null
unfolding pack_null unpack_null
null-IsLossless = record { unpack-pack = λ v target e bytes h. cc }

pub bit_string-IsLossless : IsLossless bit_string
unfolding pack_bit_string unpack_bit_string
bit_string-IsLossless = record { unpack-pack = λ v target e bytes h. ground arith }
