-- ===== src/Kubeadm/Expiry.antt =====
-- `checkCertificateExpiry` of pkg/pki/cert/kubeadm/exec.go, at a reading `tn` of the clock.
mod Tests
use kucero.Base.{
  ℤ, ◌≡◌, ◌↔◌, ◌+ℤ◌, ◌-ℤ◌, ◌≤ℤ◌, ◌<ℤ◌, pos, leb_ℤ, int_laws, +ℤ_parts, -ℤ_parts, arith, Bool, true,
  false, if◌then◌else◌,
}
use kucero.Api.Time.{Time, Duration, before, sub, saturate, max_duration, min_duration, Clock}

unfoldable pub expires_at : Time → Duration → Time → Bool
unfolding sub
expires_at t expiry_time_to_rotate tn =
    if before t tn then true else if leb_ℤ (sub t tn) expiry_time_to_rotate then true else false

-- The reading, the answer, and the world after the reading.
unfoldable pub check_certificate_expiry :
    {W : Type 0} → Clock W → Time → Duration → W → record { expires : Bool; world : W }
unfolding expires_at
check_certificate_expiry clock t expiry_time_to_rotate w =
    let r = clock.now w in
    record { expires = expires_at t expiry_time_to_rotate r.time; world = r.world }

leb_ℤ-saturate :
    (d e : Duration) → pos 0 ≤ℤ e → e <ℤ max_duration → leb_ℤ (saturate d) e ≡ leb_ℤ d e
unfolding saturate
leb_ℤ-saturate d e low high = ground arith

-- For a duration that is not negative and below the largest one, a certificate is due exactly if
-- its end is at most that long after now: neither the test on the past nor the saturation of `Sub`
-- changes that.
pub expires_at_iff :
    (t tn : Time) (expiry : Duration)
    → pos 0 ≤ℤ expiry
    → expiry <ℤ max_duration
    → (expires_at t expiry tn ≡ true) ↔ (t ≤ℤ tn +ℤ expiry)
unfolding expires_at
expires_at_iff t tn expiry low high =
    rw (leb_ℤ-saturate (t -ℤ tn) expiry low high)
      (ground (arith, -ℤ_parts t tn, +ℤ_parts tn expiry))
