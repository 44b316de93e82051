-- ===== src/Controllers/Server/Progress/Tests.antt =====
-- A server that refuses the first patch of a request and takes the second.
use kucero.Base.{
  ◌≡◌, refl, List, [], ◌∷◌, ◌++◌, some, bytes, string_eq, nat_eq, text_eq, String, Text, ◌+ℤ◌, ◌-ℤ◌,
}
use kucero.Api.Error.{external}
use kucero.Api.Csr.{CertificateSigningRequest, usage_eq}
use kucero.Cert.Parser.{parse_csr}
use kucero.Authority.Usages.{key_usages_from_strings}
use kucero.Signer.Sign.{duration}
use kucero.Controllers.Helper.{is_node_serving_cert}
use kucero.Controllers.Helper.Laws.{IsServing, is_node_serving_cert_iff}
use kucero.Controllers.Reconcile.{reconcile, is_zero}
use kucero.Controllers.Server.{Answers, update, serve}
use kucero.Controllers.Server.Keys.{update-same}
use kucero.Controllers.Server.Lifecycle.{serve_all}
use kucero.Controllers.Server.Tests.{
  csr, nothing, one, one-IsKeyed, store, store-IsStore, willing, sg,
}
use kucero.Controllers.Server.Progress.{IsServed, serve_all-signs}
use kucero.Samples.{request}

abbrev patch_refused : Answers
patch_refused = record willing { refused_patch = some (external "conflict") }

abbrev before : List (Answers × String)
before = (patch_refused, "csr-a") ∷ []

serving : IsServing csr request
unfolding is_node_serving_cert nat_eq usage_eq string_eq
serving = (is_node_serving_cert_iff csr request).0 refl

served : IsServed willing (serve_all store before (one csr, sg)).1 csr request (bytes "key")
unfolding serve_all serve update reconcile parse_csr is_zero nat_eq string_eq text_eq usage_eq
    is_node_serving_cert duration kucero.Signer.Sign.sign kucero.Authority.Sign.sign
    kucero.Authority.Policy.apply key_usages_from_strings ◌+ℤ◌ ◌-ℤ◌
served = record {
  live = refl;
  unsigned = refl;
  parsed = refl;
  serving = serving;
  allowed = refl;
  signed = (sg, refl);
  read = refl;
  written = refl;
}

serve_all-signs_example :
    (c' : CertificateSigningRequest) × (cert' : Text) × ((serve_all store
          (before ++ ((willing, "csr-a") ∷ before))
          (one csr, sg)).0
        "csr-a"
      ≡ some c')
    × (c'.certificate ≡ some cert')
serve_all-signs_example =
    serve_all-signs store store-IsStore before before willing "csr-a" (one csr) sg csr request
      (bytes "key") (one-IsKeyed csr refl) (update-same nothing "csr-a" csr) served
