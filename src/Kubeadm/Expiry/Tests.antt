-- ===== src/Kubeadm/Expiry/Tests.antt =====
-- A certificate that ends within the period.
use kucero.Base.{◌≡◌, refl, ◌↔◌, true, false, ◌≤ℤ◌, ◌+ℤ◌, ◌-ℤ◌, arith}
use kucero.Api.Time.{minutes}
use kucero.Kubeadm.Expiry.{expires_at, expires_at_iff}

valid_for_long : expires_at (minutes 50) (minutes 1) (minutes 10) ≡ false
unfolding expires_at ◌-ℤ◌
valid_for_long = refl

expires_at_iff_example :
    (expires_at (minutes 5) (minutes 10) (minutes 1) ≡ true)
    ↔ (minutes 5 ≤ℤ minutes 1 +ℤ minutes 10)
expires_at_iff_example =
    expires_at_iff (minutes 5) (minutes 1) (minutes 10) (ground arith) (ground arith)
