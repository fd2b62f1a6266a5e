-- ===== src/Binary/Parameters/Tests.antt =====
-- A theorem of parameters.go at a concrete input.
use net_mapper.Prelude.{◌≡◌, ◌↔◌, none, some, Option, ok}
use net_mapper.Binary.Value.{Envelope}
use net_mapper.Binary.Parameters.{Parameters, validate, update, validate-update}

abbrev tagged : Option Parameters
tagged = some (record { tag = some 1; class = none })

abbrev application : Envelope
application = record { class = 1; tag = 4 }

validate-update_run :
    (validate tagged application ≡ ok tt) ↔ (update tagged application ≡ application)
validate-update_run = validate-update tagged application
