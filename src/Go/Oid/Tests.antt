-- ===== src/Go/Oid/Tests.antt =====
-- Runs of oid.go, and its theorems at concrete inputs.
use net_mapper.Prelude.{
  ◌+◌, ◌≡◌, ◌≢◌, refl, arith, [], ◌∷◌, ok, err, ◌>>=◌, ◌⊎◌, true, false, not, length,
}
use net_mapper.Binary.Error
use net_mapper.Binary.Value.{Envelope}
use net_mapper.Go.Oid.{
  Oid, pack_oid, pack_elements, pack_element, groups, write_groups, unpack_oid, unpack_elements,
  less_than,
}
use net_mapper.Go.Oid.RoundTrip.{unpack_oid-pack_oid}
use net_mapper.Go.Oid.Unpack.{unpack_oid_cases, ends_closed, count_last}
use net_mapper.Go.Oid.LessThan.{less_than_trans, less_than_total}

abbrev oid_envelope : Envelope
oid_envelope = record { class = 0; tag = 6 }

-- 1.3.6.1.4.1.2680
pack_enterprise :
    pack_oid (1 ∷ 3 ∷ 6 ∷ 1 ∷ 4 ∷ 1 ∷ 2680 ∷ [])
    ≡ ok (oid_envelope, 0x2b ∷ 6 ∷ 1 ∷ 4 ∷ 1 ∷ 0x94 ∷ 0x78 ∷ [])
unfolding pack_oid pack_elements pack_element groups write_groups
pack_enterprise = refl

-- The arc 2.100 is packed into a byte that is read as 4.20.
second_above_39 : (pack_oid (2 ∷ 100 ∷ []) >>= λ (e, bytes). unpack_oid e bytes) ≡ ok (4 ∷ 20 ∷ [])
unfolding pack_oid pack_elements unpack_oid unpack_elements
second_above_39 = refl

unpack_oid-pack_oid_example :
    (pack_oid (1 ∷ 3 ∷ 6 ∷ 300 ∷ []) >>= λ (e, bytes). unpack_oid e bytes)
    ≡ ok (1 ∷ 3 ∷ 6 ∷ 300 ∷ [])
unpack_oid-pack_oid_example =
    unpack_oid-pack_oid 1 3 (6 ∷ 300 ∷ []) (omega arith) (omega arith) (omega arith)

unpack_oid_cases_example :
    ((o : Oid) × (unpack_oid oid_envelope (0x2b ∷ 6 ∷ 0x94 ∷ []) ≡ ok o)
      × (length o ≡ 2 + count_last (6 ∷ 0x94 ∷ []))
      × (ends_closed false (6 ∷ 0x94 ∷ []) ≡ true))
    ⊎ ((unpack_oid oid_envelope (0x2b ∷ 6 ∷ 0x94 ∷ []) ≡ err Error.oid_truncated)
        × (ends_closed false (6 ∷ 0x94 ∷ []) ≡ false))
unpack_oid_cases_example = unpack_oid_cases oid_envelope 0x2b (6 ∷ 0x94 ∷ []) refl (omega arith)

less_prefix : less_than (1 ∷ 3 ∷ []) (1 ∷ 3 ∷ 6 ∷ []) ≡ true
unfolding less_than
less_prefix = refl

less_later : less_than (1 ∷ 3 ∷ 6 ∷ []) (1 ∷ 4 ∷ []) ≡ true
unfolding less_than
less_later = refl

less_than_trans_run : less_than (1 ∷ 3 ∷ []) (1 ∷ 4 ∷ []) ≡ true
less_than_trans_run =
    less_than_trans (1 ∷ 3 ∷ []) (1 ∷ 3 ∷ 6 ∷ []) (1 ∷ 4 ∷ []) less_prefix less_later

abbrev mgmt : Oid
mgmt = 1 ∷ 3 ∷ []

abbrev joint : Oid
joint = 1 ∷ 4 ∷ []

less_than_total_run :
    ((mgmt ≡ joint) × (less_than mgmt joint ≡ false) × (less_than joint mgmt ≡ false))
    ⊎ ((mgmt ≢ joint) × (less_than mgmt joint ≡ not (less_than joint mgmt)))
less_than_total_run = less_than_total mgmt joint (omega arith) (omega arith)
