-- ===== src/Signer/CaProvider.antt =====
-- `caProvider` of pkg/pki/signer/ca_provider.go. The content of the loader may change between two
-- reads, so each read is an argument. `none` is the panic of the type assertion on an empty value.
pub mod Laws
pub mod Replay
mod Tests
use kucero.Base.{
  String, Text, Bool, Option, none, some, List, [], ◌∷◌, ◌&&◌, ◌==◌, length, text_eq, if◌then◌else◌,
}
use kucero.Api.Time.{minutes}
use kucero.Api.Error.{Error, about, about_count, wrap_about, Result, ok, err, map_err, ◌>>=◌}
use kucero.Api.X509.{Certificate}
use kucero.Authority.Sign.{CertificateAuthority}

-- One read of `CurrentCertKeyContent`.
pub record Content : Type 0 where
  pub cert_pem : Text
  pub key_pem : Text

-- The parsers of client-go, and the assertion that a key can sign.
pub record Parsers : Type 0 where
  pub parse_certs_pem : Text → Result (List Certificate)
  pub parse_private_key_pem : Text → Result Text
  pub as_signer : Text → Option Text

-- The fields `caValue` and the name of `caLoader`.
pub record CaProvider : Type 0 where
  pub ca_value : Option CertificateAuthority
  pub loader_name : String

-- The test on `len(certs)`.
abbrev pub only_certificate : String → List Certificate → Result Certificate
only_certificate name (c ∷ []) = ok c
only_certificate name certs = err (
    about_count "error reading CA cert file %q: expected 1 certificate, found %d" name
      (length certs))

abbrev pub signing_key : String → Option Text → Result Text
signing_key name none =
    err (about "error reading CA key file %q: key did not implement crypto.Signer" name)
signing_key name (some key) = ok key

-- `setCA` up to its call of `Store`.
unfoldable pub load_ca : Parsers → String → Content → Result CertificateAuthority
load_ca x name c = do
  certs ←
      map_err (wrap_about "error reading CA cert file %q: %v" name) (x.parse_certs_pem c.cert_pem)
  certificate ← only_certificate name certs
  key ←
      map_err (wrap_about "error reading CA key file %q: %v" name)
        (x.parse_private_key_pem c.key_pem)
  priv ← signing_key name (x.as_signer key)
  ok (record {
    raw_cert = c.cert_pem;
    raw_key = c.key_pem;
    certificate = certificate;
    private_key = priv;
    backdate = minutes 5;
    now = none;
  })

abbrev pub stored : Result CertificateAuthority → CaProvider → Option Error × CaProvider
stored (err e) p = (some e, p)
stored (ok ca) p = (none, record p { ca_value = some ca })

-- `setCA`: the error, and the provider after the call.
unfoldable pub set_ca : Parsers → Content → CaProvider → Option Error × CaProvider
unfolding load_ca
set_ca x c p = stored (load_ca x p.loader_name c) p

-- `newCAProvider`, from the loader that the files gave (its name and its content) or the error.
unfoldable pub new_ca_provider : Parsers → String → Result String → Content → Result CaProvider
unfolding set_ca
new_ca_provider x ca_file loaded c = do
  name ← map_err (wrap_about "error reading CA cert file %q: %v" ca_file) loaded
  let (e, ret) = set_ca x c (record { ca_value = none; loader_name = name })
  elim e [ none ↦ ok ret | some e ↦ err e ]

abbrev pub is_current : CertificateAuthority → Content → Bool
is_current ca c = ca.raw_cert == c.cert_pem && ca.raw_key == c.key_pem

-- The last lines of `currentCA`, after the call of `setCA`.
abbrev pub reloaded :
    CertificateAuthority
    → Option Error × CaProvider
    → Option ((CertificateAuthority × Option Error) × CaProvider)
reloaded ca (some e, p) = some ((ca, some e), p)
reloaded ca (none, p) = elim p.ca_value [ none ↦ none | some ca' ↦ some ((ca', none), p) ]

-- `currentCA`: the authority and the error that it returns, and the provider after the call. The
-- second read is that of `setCA`.
unfoldable pub current_ca :
    Parsers
    → Content
    → Content
    → CaProvider
    → Option ((CertificateAuthority × Option Error) × CaProvider)
unfolding set_ca
current_ca x c c' p = elim p.ca_value [
  | none ↦ none
  | some ca ↦ if is_current ca c then some ((ca, none), p) else reloaded ca (set_ca x c' p)
]
