-- ===== src/Controllers/Server/Issued/Tests.antt =====
-- A server with one request, for which the controller is called twice; the approval is refused.
use kucero.Base.{
  ◌≡◌, refl, List, [], ◌∷◌, ◌++◌, some, bytes, arith, string_eq, nat_eq, text_eq, String, Text,
  ◌+ℤ◌, ◌-ℤ◌,
}
use kucero.Api.Time.{minutes}
use kucero.Api.Error.{external, ok}
use kucero.Api.X509.{CertificateRequest}
use kucero.Api.Csr.{usage_eq}
use kucero.Cert.Parser.{parse_csr}
use kucero.Authority.Usages.{key_usages_from_strings}
use kucero.Signer.CaProvider.{load_ca}
use kucero.Signer.Sign.{duration}
use kucero.Controllers.Helper.{is_node_serving_cert}
use kucero.Controllers.Reconcile.{reconcile}
use kucero.Controllers.Server.{Answers, serve, apply_all, update}
use kucero.Controllers.Server.Keys.{update-same}
use kucero.Controllers.Server.Lifecycle.{serve_all}
use kucero.Controllers.Server.Tests.{
  csr, signed_csr, nothing, one, one-IsKeyed, store, store-IsStore, willing, sg,
}
use kucero.Controllers.Server.Issued.{IsX509, IsNodeCertificate, serve_all-IsNodeCertificate}
use kucero.Signer.CaProvider.Laws.{IsReady, IsLoaded}
use kucero.Samples.{ca, crypto, request, tools}

-- A request that keeps its bytes.
abbrev with_raw : Text → CertificateRequest
with_raw der = record request { raw = der }

abbrev refusing : Answers
refusing = record willing {
  refused_approval = some (external "conflict");
  decoders = record {
    decode = λ pem. some ("CERTIFICATE REQUEST", pem);
    parse_certificate_request = λ der. ok (with_raw der);
  };
  tools = record tools {
    crypto = record crypto { parse_certificate_request = λ der. ok (with_raw der) };
  };
}

with_raw-raw : (der : Text) (cr : CertificateRequest) → ok (with_raw der) ≡ ok cr → cr.raw ≡ der
with_raw-raw der cr q = cc

refusing-IsX509 : IsX509 refusing
refusing-IsX509 = record {
  parses_alike = λ der. refl;
  keeps_raw = λ der cr q. with_raw-raw der cr q;
}

abbrev calls : List (Answers × String)
calls = (refusing, "csr-a") ∷ (refusing, "csr-a") ∷ []

stored : (serve_all store calls (one csr, sg)).0 "csr-a" ≡ some signed_csr
unfolding serve_all serve apply_all kucero.Controllers.Server.apply update reconcile parse_csr
    is_node_serving_cert usage_eq string_eq nat_eq text_eq kucero.Signer.Sign.sign duration
    kucero.Authority.Sign.sign kucero.Authority.Policy.apply key_usages_from_strings ◌+ℤ◌ ◌-ℤ◌
stored = refl

ready : IsReady tools.parsers sg.ca_provider
unfolding IsReady IsLoaded load_ca
ready = (ca, refl, refl)

serve_all-IsNodeCertificate_example :
    (before after : List (Answers × String)) × (a : Answers) × (name : String) × (calls
      ≡ before ++ ((a, name) ∷ after))
    × IsNodeCertificate a (minutes 60) csr (bytes "key")
serve_all-IsNodeCertificate_example =
    serve_all-IsNodeCertificate store tools.parsers calls (one csr) sg "csr-a" csr signed_csr
      (bytes "key") store-IsStore ((refl, refusing-IsX509), ((refl, refusing-IsX509), tt))
      (one-IsKeyed csr refl) ready (omega arith) (update-same nothing "csr-a" csr) refl stored refl
