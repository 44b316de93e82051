-- ===== src/Authority/Sign.antt =====
-- `CertificateAuthority.Sign` of pkg/pki/authority/authority.go.
pub mod Laws
pub mod Exact
mod Tests
use kucero.Base.{ℕ, Text, false, Option, none, some, List, [], if◌then◌else◌, not}
use kucero.Api.Time.{Time, Duration, add, negate, before, zero_time}
use kucero.Api.Error.{
  Error, message, about_time, wrap, wrap_about, Result, map_err, check, guard, ◌>>=◌,
}
use kucero.Api.X509.{Certificate, CertificateRequest}
use kucero.Authority.Policy.{SigningPolicy}

-- `now` is what the field `Now` returns when it is set.
pub record CertificateAuthority : Type 0 where
  pub raw_cert : Text
  pub raw_key : Text
  pub certificate : Certificate
  pub private_key : Text
  pub backdate : Duration
  pub now : Option Time

-- What crypto/x509 and crypto/rand do for a signature: parse a request, check its signature, draw a
-- serial number below the limit, and encode a signed certificate.
pub record Crypto : Type 0 where
  pub parse_certificate_request : Text → Result CertificateRequest
  pub check_signature : CertificateRequest → Option Error
  pub random_serial : Result ℕ
  pub create_certificate : Certificate → Certificate → Text → Text → Result Text

abbrev pub get_now : CertificateAuthority → Time → Time
get_now ca wall = elim ca.now [ none ↦ wall | some t ↦ t ]

-- The template of `Sign`; the fields that the literal leaves out are Go's zero values.
unfoldable pub template : CertificateRequest → ℕ → Time → Certificate
template cr serial nbf = record {
  serial_number = serial;
  subject = cr.subject;
  dns_names = cr.dns_names;
  ip_addresses = cr.ip_addresses;
  email_addresses = cr.email_addresses;
  uris = cr.uris;
  public_key_algorithm = cr.public_key_algorithm;
  public_key = cr.public_key;
  extensions = cr.extensions;
  extra_extensions = cr.extra_extensions;
  not_before = nbf;
  not_after = zero_time;
  key_usage = 0;
  ext_key_usage = [];
  basic_constraints_valid = false;
  is_ca = false;
}

-- The cut of the validity at the end of the authority's own.
unfoldable pub capped : Certificate → Certificate → Certificate
capped ca_cert tmpl =
    if not (before tmpl.not_after ca_cert.not_after)
    then record tmpl { not_after = ca_cert.not_after }
    else tmpl

-- `wall` is the reading of `time.Now`.
unfoldable pub sign : Crypto → CertificateAuthority → Time → Text → SigningPolicy → Result Text
unfolding template capped
sign x ca wall cr_der policy = do
  let now = get_now ca wall
  let nbf = add now (negate ca.backdate)
  _ ←
      guard (before nbf ca.certificate.not_after)
        (about_time "the signer has expired: NotAfter=%v" ca.certificate.not_after)
  cr ← map_err (wrap "unable to parse certificate request: %v") (x.parse_certificate_request cr_der)
  _ ← check (x.check_signature cr) (wrap "unable to verify certificate request signature: %v")
  serial ←
      map_err (wrap_about "unable to generate a serial number for %s: %v" cr.subject.common_name)
        x.random_serial
  applied ← policy.apply (template cr serial nbf)
  let tmpl = capped ca.certificate applied
  _ ←
      guard (before now ca.certificate.not_after)
        (message "refusing to sign a certificate that expired in the past")
  map_err (wrap "failed to sign certificate: %v")
      (x.create_certificate tmpl ca.certificate cr.public_key ca.private_key)
