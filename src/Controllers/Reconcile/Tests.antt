-- ===== src/Controllers/Reconcile/Tests.antt =====
-- The theorems on `Reconcile` at a server that says yes, and at one that refuses the approval.
use kucero.Base.{
  Text, ◌≡◌, refl, inr, true, Option, none, some, List, [], ◌∷◌, bytes, text_eq, string_eq, nat_eq,
  ◌+ℤ◌, ◌-ℤ◌,
}
use kucero.Api.Time.{minutes}
use kucero.Api.Error.{Error, external, wrap, ok}
use kucero.Api.Csr.{CertificateSigningRequest, usage_eq}
use kucero.Api.X509.{CertificateRequest}
use kucero.Authority.Usages.{key_usages_from_strings}
use kucero.Authority.Policy.{apply}
use kucero.Authority.Sign.{sign as authority_sign}
use kucero.Cert.Parser.{parse_csr}
use kucero.Signer.CaProvider.{load_ca}
use kucero.Signer.CaProvider.Laws.{IsReady, IsLoaded}
use kucero.Signer.Sign.{Signer, sign, duration}
use kucero.Controllers.Helper.{kubelet_server_usages, is_node_serving_cert}
use kucero.Controllers.Helper.Laws.{IsServing, is_node_serving_cert_iff}
use kucero.Controllers.Reconcile.{
  Env, found, Action, get, review, patch_status, update_approval, event, Outcome, returned, is_zero,
  review_of, append_approval_condition, reconcile,
}
use kucero.Controllers.Reconcile.Approval.{
  fresh, permission, success_message, IsApproved, reconcile-IsApproved,
}
use kucero.Controllers.Reconcile.Retry.{reconcile_done, reconcile_serving, approval_lost}
use kucero.Controllers.Reconcile.Course.{Course}
use kucero.Controllers.Reconcile.Course.Laws.{reconcile-Course}
use kucero.Controllers.Reconcile.Ready.{reconcile-EndsWell, EndsWell}
use kucero.Samples.{request, ca, tools, with_ttl, files, with_usages}

abbrev csr : CertificateSigningRequest
csr = with_usages kubelet_server_usages

abbrev signed_csr : CertificateSigningRequest
signed_csr = record csr { certificate = some (bytes "key") }

abbrev server : CertificateSigningRequest → Option Error → Env
server object approval = record {
  get_csr = λ name. found object;
  create_review = λ r. ok true;
  patch = λ old new. ok new;
  approve = λ c. approval;
  decoders = record {
    decode = λ pem. some ("CERTIFICATE REQUEST", pem);
    parse_certificate_request = λ der. ok request;
  };
  tools = tools;
  first_read = files;
  second_read = files;
  wall = minutes 10;
}

abbrev sg : Signer
sg = with_ttl (minutes 60)

ready : IsReady tools.parsers sg.ca_provider
unfolding IsReady IsLoaded load_ca
ready = (ca, refl, refl)

serving : IsServing csr request
unfolding is_node_serving_cert nat_eq usage_eq string_eq
serving = (is_node_serving_cert_iff csr request).0 refl

signs : sign tools sg files files (minutes 10) request csr.spec ≡ some (ok (bytes "key"), sg)
unfolding sign duration authority_sign apply key_usages_from_strings text_eq ◌+ℤ◌ ◌-ℤ◌
signs = refl

serving_run : reconcile (server csr none) "csr-a" (fresh sg) ≡ (
  returned none,
  record {
    signer = sg;
    actions =
        get "csr-a"
        ∷ review (review_of csr permission)
        ∷ patch_status csr signed_csr
        ∷ update_approval (append_approval_condition (minutes 10) signed_csr success_message)
        ∷ event "Normal" "Signed" "The CSR has been signed"
        ∷ [];
  },
)
unfolding is_zero parse_csr string_eq
serving_run =
    reconcile_serving (server csr none) "csr-a" sg csr request (bytes "key") signed_csr sg refl refl
      refl refl serving refl signs refl

serves_csr : reconcile (server csr none) "csr-a" (fresh sg) ≡ (
  returned none,
  record {
    signer = sg;
    actions =
        get "csr-a"
        ∷ review (review_of csr permission)
        ∷ patch_status csr signed_csr
        ∷ update_approval (append_approval_condition (minutes 10) signed_csr success_message)
        ∷ event "Normal" "Signed" "The CSR has been signed"
        ∷ [];
  },
)
unfolding is_zero parse_csr string_eq
serves_csr =
    reconcile_serving (server csr none) "csr-a" sg csr request (bytes "key") signed_csr sg refl refl
      refl refl serving refl signs refl

signed_is_done :
    reconcile (server signed_csr none) "csr-a" (fresh sg)
    ≡ (returned none, record { signer = sg; actions = get "csr-a" ∷ [] })
signed_is_done =
    reconcile_done (server signed_csr none) "csr-a" sg signed_csr refl (inr (bytes "key", refl))

reconcile-EndsWell_example :
    EndsWell (server csr none) (minutes 60) (reconcile (server csr none) "csr-a" (fresh sg))
reconcile-EndsWell_example =
    reconcile-EndsWell (server csr none) (minutes 60) "csr-a" (fresh sg) (ready, refl)

reconcile-IsApproved_example :
    (csr' : CertificateSigningRequest) × (cr : CertificateRequest) × (cert : Text)
    × (served : CertificateSigningRequest) × (rest : List Action) × IsApproved
        (server csr none)
        "csr-a"
        sg
        (append_approval_condition (minutes 10) signed_csr success_message)
        csr'
        cr
        cert
        served
    × ((reconcile (server csr none) "csr-a" (fresh sg)).1.actions
        ≡ get "csr-a"
          ∷ review (review_of csr' permission)
          ∷ patch_status csr' (record csr' { certificate = some cert })
          ∷ update_approval (append_approval_condition (minutes 10) signed_csr success_message)
          ∷ rest)
reconcile-IsApproved_example =
    reconcile-IsApproved (server csr none) "csr-a" sg
      (append_approval_condition (minutes 10) signed_csr success_message) [] (rw serving_run refl)

approval_lost_example :
    ((reconcile (server csr (some (external "conflict"))) "csr-a" (fresh sg)).0
      ≡ returned (some (wrap "error updating approval for csr: %v" (external "conflict"))))
    × (reconcile (server signed_csr none) "csr-a" (fresh sg)
        ≡ (returned none, record { signer = sg; actions = get "csr-a" ∷ [] }))
unfolding is_zero parse_csr string_eq
approval_lost_example =
    approval_lost (server csr (some (external "conflict"))) (server signed_csr none) "csr-a" sg sg
      csr signed_csr request (bytes "key") (external "conflict") refl refl refl refl serving refl
      signs refl refl refl refl

abbrev refusing : Env
refusing = server csr (some (external "conflict"))

reconcile-Course_example :
    (o : Outcome) × (sg' : Signer) × (l : List Action) × (reconcile refusing "csr-a" (fresh sg)
      ≡ (o, record { signer = sg'; actions = l }))
    × Course refusing "csr-a" sg o sg' l
reconcile-Course_example = reconcile-Course refusing "csr-a" sg
