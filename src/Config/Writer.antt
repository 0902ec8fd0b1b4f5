-- ===== src/Config/Writer.antt =====
-- internal/config/writer.go: the validation of the one service that is written.
use libra_flux.Base.{◌≡◌, refl, ◌↔◌, Bool, [], ◌∷◌, ok}
use libra_flux.Base.Text.{GoString}
use libra_flux.Config.Types.{Service}
use libra_flux.Config.Validator.{Check, validate_services}
use libra_flux.Config.Services.{ServiceOk, validate_services_iff}

unfoldable pub validate_single_service : (GoString → Bool) → Service → Check
validate_single_service is_ip s = validate_services is_ip (s ∷ [])

-- The service is written exactly when it is well formed.
pub validate_single_service_iff :
    (is_ip : GoString → Bool) (s : Service)
    → (validate_single_service is_ip s ≡ ok tt) ↔ ServiceOk is_ip s
unfolding validate_single_service
validate_single_service_iff is_ip s =
    let both = validate_services_iff is_ip (s ∷ []) in
    (λ h. ((both.0 h).0).0, λ h. both.1 ((h, tt), (refl, tt)))
