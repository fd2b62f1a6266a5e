-- ===== src/Binary/Parameters.antt =====
-- pkg/asn1/asn1binary/parameters.go: what a caller asks of an envelope. A nil pointer is `none`.
pub mod Parse
mod Tests
use net_mapper.Prelude.{
  ℕ, ◌≡◌, ◌↔◌, refl, arith, Bool, true, not, Option, none, some, ◌==◌, if◌then◌else◌,
}
use net_mapper.Prelude.{Outcome, ok, err, ◌>>=◌}
use net_mapper.Binary.Error
use net_mapper.Binary.Error.{Error}
use net_mapper.Binary.Value.{Envelope}

pub record Parameters : Type 0 where
  pub tag : Option ℕ
  pub class : Option ℕ

-- A wanted number against the one in the envelope.
check_field : Error.Message → Option ℕ → ℕ → Outcome Error (Unit {0})
check_field what none actual = ok tt
check_field what (some wanted) actual =
    if not (actual == wanted) then err (Error.unexpected what wanted actual) else ok tt

-- `none` for `p` is the nil pointer, which allows every envelope.
unfoldable pub validate : Option Parameters → Envelope → Outcome Error (Unit {0})
unfolding check_field
validate none e = ok tt
validate (some p) e = check_field Error.tag_mismatch p.tag e.tag >>= λ _.
    check_field Error.class_mismatch p.class e.class

override : Option ℕ → ℕ → ℕ
override none old = old
override (some new) old = new

unfoldable pub update : Option Parameters → Envelope → Envelope
unfolding override
update none e = e
update (some p) e = record { class = override p.class e.class; tag = override p.tag e.tag }

-- An envelope passes Validate exactly when Update leaves it as it is.
pub validate-update :
    (p : Option Parameters) (e : Envelope) → (validate p e ≡ ok tt) ↔ (update p e ≡ e)
unfolding validate update
validate-update none e = (λ _. refl, λ _. refl)
validate-update (some p) e = ground arith
