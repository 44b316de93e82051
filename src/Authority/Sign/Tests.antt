-- ===== src/Authority/Sign/Tests.antt =====
-- The theorems on `Sign` at a concrete authority and request.
use kucero.Base.{ℕ, List, ◌≡◌, refl, ◌↔◌, none, bytes, arith, ◌+ℤ◌, ◌-ℤ◌}
use kucero.Api.Time.{Time, minutes}
use kucero.Api.Error.{Error, ok, err}
use kucero.Api.X509.{Certificate, CertificateRequest}
use kucero.Authority.Usages.{key_usages_from_strings}
use kucero.Authority.Policy.{permissive, apply}
use kucero.Authority.Sign.{sign}
use kucero.Samples.{root, ca, crypto, policy, same}
use kucero.Authority.Sign.Laws.{IsIssued, sign-IsIssued, sign_expired}
use kucero.Authority.Sign.Exact.{IsGranted, sign_iff}

sign-IsIssued_example :
    (cr : CertificateRequest) × (tmpl : Certificate) × (crypto.parse_certificate_request
        (bytes "csr")
      ≡ ok cr)
    × (crypto.check_signature cr ≡ none)
    × (crypto.create_certificate tmpl root cr.public_key (bytes "pem") ≡ ok (bytes "key"))
    × IsIssued same crypto ca (minutes 10) policy cr tmpl
unfolding sign apply key_usages_from_strings ◌+ℤ◌ ◌-ℤ◌
sign-IsIssued_example =
    sign-IsIssued same crypto ca (minutes 10) policy (bytes "csr") (bytes "key") refl

ended_signs_nothing :
    (e : Error) × (sign crypto ca (minutes 1003) (bytes "csr") (permissive same policy) ≡ err e)
ended_signs_nothing = sign_expired same crypto ca (minutes 1003) policy (bytes "csr") (omega arith)

sign_iff_example :
    (sign crypto ca (minutes 10) (bytes "csr") (permissive same policy) ≡ ok (bytes "key")) ↔ (
      (cr : CertificateRequest) × (serial : ℕ) × (found : ℕ × List ℕ) × (ends : Time) × IsGranted
        same crypto ca
        (minutes 10)
        policy
        (bytes "csr")
        (bytes "key")
        cr
        serial
        found
        ends)
sign_iff_example = sign_iff same crypto ca (minutes 10) policy (bytes "csr") (bytes "key")

-- There, something is granted.
granted :
    (cr : CertificateRequest) × (serial : ℕ) × (found : ℕ × List ℕ) × (ends : Time) × IsGranted same
      crypto ca
      (minutes 10)
      policy
      (bytes "csr")
      (bytes "key")
      cr
      serial
      found
      ends
unfolding sign apply key_usages_from_strings ◌+ℤ◌ ◌-ℤ◌
granted = (sign_iff same crypto ca (minutes 10) policy (bytes "csr") (bytes "key")).0 refl
