-- ===== src/Controllers/Server/Tests.antt =====
-- A server with one request, and the controller called for it.
use kucero.Base.{◌≡◌, refl, [], ◌∷◌, Option, none, some, true, bytes}
use kucero.Api.Time.{minutes}
use kucero.Api.Error.{external, ok}
use kucero.Api.Csr.{CertificateSigningRequest}
use kucero.Controllers.Helper.{kubelet_server_usages}
use kucero.Controllers.Server.{Objects, update, Answers, Store, IsStore, serve}
use kucero.Controllers.Server.Keys.{IsKeyed, update-same, update-IsKeyed}
use kucero.Controllers.Server.Lifecycle.{Lifecycle, serve-Lifecycle, serve_all, serve_all-keeps}
use kucero.Signer.Sign.{Signer}
use kucero.Samples.{request, tools, with_ttl, files, with_usages}

abbrev pub csr : CertificateSigningRequest
csr = with_usages kubelet_server_usages

abbrev pub signed_csr : CertificateSigningRequest
signed_csr = record csr { certificate = some (bytes "key") }

abbrev pub nothing : Objects
nothing name = none

abbrev pub one : CertificateSigningRequest → Objects
one c = update nothing "csr-a" c

pub one-IsKeyed : (c : CertificateSigningRequest) → c.name ≡ "csr-a" → IsKeyed (one c)
one-IsKeyed c named = update-IsKeyed nothing "csr-a" c (λ n d q. absurd cc) named

abbrev pub patched :
    Objects
    → CertificateSigningRequest
    → Option CertificateSigningRequest
    → CertificateSigningRequest × Objects
patched objects new none = (new, objects)
patched objects new (some c) =
    let c' = record c { certificate = new.certificate } in (c', update objects new.name c')

abbrev pub conditioned :
    Objects → CertificateSigningRequest → Option CertificateSigningRequest → Objects
conditioned objects new none = objects
conditioned objects new (some c) =
    update objects new.name (record c { conditions = new.conditions })

abbrev pub store : Store
store = record {
  patch = λ objects new. patched objects new (objects new.name);
  approve = λ objects new. conditioned objects new (objects new.name);
}

pub store-IsStore : IsStore store
store-IsStore = record {
  patch-returned = λ objects c new known. rw known refl;
  patch-stored = λ objects c new known. rw known refl;
  approve-stored = λ objects c new known. rw known refl;
}

abbrev pub willing : Answers
willing = record {
  refused_get = none;
  create_review = λ r. ok true;
  refused_patch = none;
  refused_approval = none;
  decoders = record {
    decode = λ pem. some ("CERTIFICATE REQUEST", pem);
    parse_certificate_request = λ der. ok request;
  };
  tools = tools;
  first_read = files;
  second_read = files;
  wall = minutes 10;
}

abbrev unwilling : Answers
unwilling = record willing { refused_approval = some (external "conflict") }

abbrev pub sg : Signer
sg = with_ttl (minutes 60)

serve-Lifecycle_example :
    (c' : CertificateSigningRequest) × ((serve store willing "csr-a" (one csr, sg)).0 "csr-a"
      ≡ some c')
    × Lifecycle willing "csr-a" sg csr c'
serve-Lifecycle_example =
    serve-Lifecycle store store-IsStore willing "csr-a" (one csr) sg (one-IsKeyed csr refl) "csr-a"
      csr (update-same nothing "csr-a" csr)

serve_all-keeps_example :
    (serve_all store ((unwilling, "csr-a") ∷ (willing, "csr-a") ∷ []) (one signed_csr, sg)).0
      "csr-a"
    ≡ some signed_csr
serve_all-keeps_example =
    serve_all-keeps store store-IsStore ((unwilling, "csr-a") ∷ (willing, "csr-a") ∷ [])
      (one signed_csr) sg "csr-a" signed_csr (bytes "key") (one-IsKeyed signed_csr refl)
      (update-same nothing "csr-a" signed_csr) refl
