-- ===== src/Config/Checks.antt =====
-- Sequences of checks that return on the first fault: when such a sequence passes.
use libra_flux.Base.{◌≡◌, refl, ◌↔◌, Bool, true, false, not, arith, Result, ok, err, ◌>>◌, fail_if}
use libra_flux.Config.Validator.{Check, ConfigError}

pub fail_iff {ℓ} :
    {b : Bool} {P : Type ℓ} (e : ConfigError) → ((b ≡ false) ↔ P) → (fail_if b e ≡ ok tt) ↔ P
fail_iff {b} e iff = (λ h. iff.0 (passes b h), λ p. rw (iff.1 p) refl)
  where
    passes : (b : Bool) → fail_if b e ≡ ok tt → b ≡ false
    passes true h = cc
    passes false h = refl

not_ok : {B : Type 0} (e : ConfigError) (y : B) → ◌≡◌ {A = Result ConfigError B} (err e) (ok y) → ⊥
not_ok e y h = cc

-- A sequence of checks passes exactly when both parts do.
pub seq_iff {ℓ κ} :
    {m : Check} {B : Type 0} {n : Result ConfigError B} {y : B} {P : Type ℓ} {Q : Type κ}
    → ((m ≡ ok tt) ↔ P)
    → ((n ≡ ok y) ↔ Q)
    → ((m >> n) ≡ ok y) ↔ (P × Q)
seq_iff {m} {B} {n} {y} {P} {Q} p q = go m p
  where
    go : (m : Check) → ((m ≡ ok tt) ↔ P) → ((m >> n) ≡ ok y) ↔ (P × Q)
    go (ok u) p = (λ h. (p.0 refl, q.0 h), λ h. q.1 h.1)
    go (err e) p = (λ h. absurd (not_ok e y h), λ h. absurd (not_ok e tt (p.1 h.0)))

pub ok_iff : {B : Type 0} (x y : B) → (◌≡◌ {A = Result ConfigError B} (ok x) (ok y)) ↔ (y ≡ x)
ok_iff x y = (λ h. cc, λ h. cc)

pub not_iff : (b : Bool) → (not b ≡ false) ↔ (b ≡ true)
not_iff b = ground arith
