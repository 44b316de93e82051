-- ===== src/Signer/Sign.antt =====
-- `Signer` of pkg/pki/signer/signer.go.
pub mod Laws
mod Tests
use kucero.Base.{ℕ, ℤ, String, Text, Option, none, some, List, ltb_ℤ, if◌then◌else◌}
use kucero.Api.Time.{Time, Duration, minutes}
use kucero.Api.Error.{Error, Result, ok, err, ◌>>=◌}
use kucero.Api.X509.{CertificateRequest}
use kucero.Api.Csr.{Spec}
use kucero.Authority.Policy.{permissive}
use kucero.Authority.Sign.{CertificateAuthority, Crypto, sign as authority_sign}
use kucero.Signer.CaProvider.{CaProvider, Content, Parsers, new_ca_provider, current_ca}

pub record Signer : Type 0 where
  pub ca_provider : CaProvider
  pub cert_ttl : Duration

unfoldable pub new_signer : Parsers → String → Result String → Content → Duration → Result Signer
unfolding new_ca_provider
new_signer x ca_file loaded c duration = do
  provider ← new_ca_provider x ca_file loaded c
  ok (record { ca_provider = provider; cert_ttl = duration })

-- The lower bound `min` of `duration`.
abbrev pub min_duration : Duration
min_duration = minutes 10

abbrev pub clamped : Duration → Duration → Duration
clamped ttl requested =
    if ltb_ℤ ttl requested
    then ttl
    else if ltb_ℤ requested min_duration
    then min_duration
    else requested

-- What the signer takes from outside: client-go's conversion of seconds to a duration, the PEM
-- encoding of package pem, the crypto of `Authority.Sign`, and the order in which Go visits a map.
pub record Tools : Type 0 where
  pub expiration_seconds_to_duration : ℤ → Duration
  pub encode_to_memory : String → Text → Text
  pub crypto : Crypto
  pub parsers : Parsers
  pub range : List ℕ → List ℕ

module _ (x : Tools) where
  unfoldable pub duration : Signer → Option ℤ → Duration
  duration s none = s.cert_ttl
  duration s (some expiration_seconds) =
      clamped s.cert_ttl (x.expiration_seconds_to_duration expiration_seconds)

  -- The lines of `Sign` after `currentCA`.
  unfoldable pub sign_with :
      Signer → Time → CertificateRequest → Spec → CertificateAuthority × Option Error → Result Text
  sign_with s wall x509cr spec (ca, some e) = err e
  sign_with s wall x509cr spec (ca, none) = do
    der ← authority_sign x.crypto ca wall x509cr.raw (
        permissive x.range
          (record { ttl = duration s spec.expiration_seconds; usages = spec.usages }))
    ok (x.encode_to_memory "CERTIFICATE" der)

  -- `Sign`: `none` is the panic of `currentCA`. The two contents are the loader's, at its two reads.
  unfoldable pub sign :
      Signer → Content → Content → Time → CertificateRequest → Spec → Option (Result Text × Signer)
  unfolding sign_with current_ca
  sign s c c' wall x509cr spec = elim (current_ca x.parsers c c' s.ca_provider) [
    | none ↦ none
    | some (found, provider) ↦
        some (sign_with s wall x509cr spec found, record s { ca_provider = provider })
  ]
