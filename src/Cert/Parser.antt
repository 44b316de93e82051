-- ===== src/Cert/Parser.antt =====
-- `ParseCSR` of pkg/pki/cert/parser.go.
use kucero.Base.{String, Text, Option, none, some, ◌==◌, string_eq, if◌then◌else◌}
use kucero.Api.Error.{message, Result, err}
use kucero.Api.X509.{CertificateRequest}

-- `pem.Decode` gives the type and the bytes of the first block; `x509.ParseCertificateRequest`
-- reads DER.
pub record Decoders : Type 0 where
  pub decode : Text → Option (String × Text)
  pub parse_certificate_request : Text → Result CertificateRequest

unfoldable pub parse_csr : Decoders → Text → Result CertificateRequest
parse_csr x pem_bytes = elim (x.decode pem_bytes) [
  | none ↦ err (message "PEM block type must be CERTIFICATE REQUEST")
  | some (kind, der) ↦
      if kind == "CERTIFICATE REQUEST"
      then x.parse_certificate_request der
      else err (message "PEM block type must be CERTIFICATE REQUEST")
]
