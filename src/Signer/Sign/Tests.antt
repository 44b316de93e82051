-- ===== src/Signer/Sign/Tests.antt =====
-- The theorems on `Signer` at a concrete signer.
use kucero.Base.{
  Text, ◌≡◌, refl, ◌↔◌, ◌⊎◌, some, ℤ, [], ◌∷◌, bytes, text_eq, nat_eq, pos, arith, ◌≤ℤ◌, ◌<ℤ◌, ◌+ℤ◌,
  ◌-ℤ◌,
}
use kucero.Api.Time.{seconds, minutes}
use kucero.Api.Error.{server_auth, key_encipherment, Result}
use kucero.Api.X509.{Certificate, CertificateRequest}
use kucero.Api.Csr.{Spec}
use kucero.Authority.Usages.{key_usages_from_strings}
use kucero.Authority.Policy.{apply}
use kucero.Authority.Sign.{CertificateAuthority, sign as authority_sign}
use kucero.Samples.{request, ca, tools, with_ttl, files}
use kucero.Signer.CaProvider.{load_ca}
use kucero.Signer.CaProvider.Laws.{content_of, IsReady, IsLoaded}
use kucero.Signer.Sign.{Signer, duration, sign}
use kucero.Signer.Sign.Laws.{
  IsHandedOut, duration_bounds, duration_honoured, duration_exceeds_iff, sign-IsReady,
  sign-IsHandedOut,
}

abbrev spec : Spec
spec = record {
  request = bytes "csr";
  username = "system:node:a";
  uid = "";
  groups = [];
  extra = [];
  usages = server_auth ∷ key_encipherment ∷ [];
  expiration_seconds = some (pos 900);
}

ready : IsReady tools.parsers (with_ttl (minutes 60)).ca_provider
unfolding IsReady IsLoaded load_ca
ready = (ca, refl, refl)

bounds_of_30 :
    let s = with_ttl (minutes 60) in
    (minutes 10 ≤ℤ duration tools s (some (pos 30)))
    × (duration tools s (some (pos 30)) ≤ℤ s.cert_ttl)
bounds_of_30 = duration_bounds tools (with_ttl (minutes 60)) (some (pos 30)) (omega arith)

honours_900 : duration tools (with_ttl (minutes 60)) (some (pos 900)) ≡ seconds 900
honours_900 = duration_honoured tools (with_ttl (minutes 60)) (pos 900) (omega arith) (omega arith)

duration_exceeds_iff_example :
    let s = with_ttl (minutes 2) in
    (s.cert_ttl <ℤ duration tools s (some (pos 60))) ↔ (
      (seconds : ℤ) × (some (pos 60) ≡ some seconds)
      × (tools.expiration_seconds_to_duration seconds ≤ℤ s.cert_ttl)
      × (s.cert_ttl <ℤ minutes 10))
duration_exceeds_iff_example = duration_exceeds_iff tools (with_ttl (minutes 2)) (some (pos 60))

signed-IsReady :
    (r : Result Text) × (s' : Signer) × (sign tools
        (with_ttl (minutes 60))
        files
        files
        (minutes 10)
        request
        spec
      ≡ some (r, s'))
    × IsReady tools.parsers s'.ca_provider
    × (s'.cert_ttl ≡ minutes 60)
signed-IsReady =
    sign-IsReady tools (with_ttl (minutes 60)) (minutes 10) request spec files files ready

sign-IsHandedOut_example :
    let s = with_ttl (minutes 60) in
    (ca' : CertificateAuthority) × ((content_of ca' ≡ files) ⊎ (content_of ca' ≡ files))
    × (cr : CertificateRequest) × (tmpl : Certificate) × (der : Text) × IsHandedOut tools s
        (minutes 10)
        request
        spec
        ca'
        cr
        tmpl
        der
        (bytes "key")
unfolding sign duration authority_sign apply key_usages_from_strings text_eq ◌+ℤ◌ ◌-ℤ◌
sign-IsHandedOut_example =
    sign-IsHandedOut tools (with_ttl (minutes 60)) (minutes 10) request spec files files ready
      (bytes "key") (with_ttl (minutes 60)) refl
