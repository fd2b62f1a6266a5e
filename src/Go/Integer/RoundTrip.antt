-- ===== src/Go/Integer/RoundTrip.antt =====
-- `GetInt` after `SetInt`.
use net_mapper.Prelude.{
  ℕ, ◌^◌, ◌≤◌, ◌<◌, ◌≡◌, ◌∙◌, ap, refl, arith, [], ◌∷◌, Bytes, length, All, ok,
}
use net_mapper.Binary.Value.Length.{IsByte}
use net_mapper.Go.Integer.{get_int, set_int}
use net_mapper.Go.Integer.Read.{signed_value, get_int-signed_value}
use net_mapper.Go.Integer.Write.{set_int-Trimmed, signed_eight}

pub get_int_lem :
    (bs : Bytes)
    → 1 ≤ length bs
    → length bs ≤ 8
    → All IsByte bs
    → get_int 64 bs ≡ ok (signed_value bs)
get_int_lem [] lo hi h = absurd (omega arith)
get_int_lem (b ∷ bs) lo hi h = get_int-signed_value 64 b bs (omega arith) refl (omega arith) h

-- GetInt(64) gives back every int64 that SetInt wrote.
pub get_int-set_int : (w : ℕ) → w < 2 ^ 64 → get_int 64 (set_int w) ≡ ok w
get_int-set_int w h =
    let kept = set_int-Trimmed w in
    get_int_lem (set_int w) kept.some_left kept.not_longer kept.bytes
    ∙ ap ok (kept.value ∙ signed_eight w h)
