-- ===== src/Controllers/Reconcile/Course.antt =====
-- All the courses of `Reconcile` in controllers/certificatesigningrequest_controller.go: how it ends
-- and what it sends, by what it meets.
pub mod Laws
use kucero.Base.{
  String, Text, ◌≡◌, inl, inr, true, false, none, some, List, [], ◌∷◌, arith, Bool-cases,
  Option-cases,
}
use kucero.Api.Error.{Error, wrap, message, ok, err, Result-cases}
use kucero.Api.Csr.{CertificateSigningRequest}
use kucero.Api.X509.{CertificateRequest}
use kucero.Cert.Parser.{parse_csr}
use kucero.Signer.Sign.{Signer, sign}
use kucero.Controllers.Helper.{is_node_serving_cert}
use kucero.Controllers.Helper.Laws.{IsServing, is_node_serving_cert_iff}
use kucero.Controllers.Reconcile.{
  found, not_found, failed, Action, get, review, patch_status, update_approval, event, Env, Outcome,
  returned, panicked, is_zero, review_of, append_approval_condition, reconcile,
}
use kucero.Controllers.Reconcile.Approval.{
  fresh, permission, success_message, Got-cases, empty_unrecognized,
}

module _ (x : Env) (name : String) (sg : Signer) where
  -- A request that waits for a certificate.
  pub record IsWaiting (csr : CertificateSigningRequest) : Type 0 where
    pub got : x.get_csr name ≡ found csr
    pub live : is_zero csr.deletion_timestamp ≡ true
    pub unsigned : csr.certificate ≡ none

  -- A kubelet serving request among them.
  pub record IsRecognized (csr : CertificateSigningRequest) (cr : CertificateRequest) : Type 0 where
    pub waiting : IsWaiting csr
    pub parsed : parse_csr x.decoders csr.spec.request ≡ ok cr
    pub serving : IsServing csr cr

  -- One that passed the review and was signed.
  pub record IsSigned (csr : CertificateSigningRequest) (cr : CertificateRequest) (cert : Text)
      (sg' : Signer) : Type 0 where
    pub recognized : IsRecognized csr cr
    pub allowed : x.create_review (review_of csr permission) ≡ ok true
    pub signed : sign x.tools sg x.first_read x.second_read x.wall cr csr.spec ≡ some (ok cert, sg')

  abbrev pub unable : Action
  unable = event "Warning" "SigningFailed" "Unable to parse the CSR request"

  abbrev pub reviewed : CertificateSigningRequest → List Action → List Action
  reviewed csr rest = get name ∷ review (review_of csr permission) ∷ rest

  abbrev pub patched : CertificateSigningRequest → Text → List Action → List Action
  patched csr cert rest =
      reviewed csr (patch_status csr (record csr { certificate = some cert }) ∷ rest)

  abbrev pub approval : CertificateSigningRequest → CertificateSigningRequest
  approval served = append_approval_condition x.wall served success_message

  -- The end, the signer and the requests that were sent.
  pub data Course : Outcome → Signer → List Action → Type 0 where
    unread :
        (e : Error)
        → x.get_csr name ≡ failed e
        → Course (returned (some (wrap "error %q getting CSR" e))) sg (get name ∷ [])
    -- A request that is gone is an empty one, which is not a serving request.
    gone_unparsed :
        (e : Error)
        → x.get_csr name ≡ not_found
        → parse_csr x.decoders [] ≡ err e
        → Course (returned none) sg (get name ∷ unable ∷ [])
    gone_parsed :
        (cr : CertificateRequest)
        → x.get_csr name ≡ not_found
        → parse_csr x.decoders [] ≡ ok cr
        → Course (returned none) sg (get name ∷ [])
    deleted :
        (csr : CertificateSigningRequest)
        → x.get_csr name ≡ found csr
        → is_zero csr.deletion_timestamp ≡ false
        → Course (returned none) sg (get name ∷ [])
    has_certificate :
        (csr : CertificateSigningRequest) (cert : Text)
        → x.get_csr name ≡ found csr
        → csr.certificate ≡ some cert
        → Course (returned none) sg (get name ∷ [])
    unparsed :
        (csr : CertificateSigningRequest) (e : Error)
        → IsWaiting csr
        → parse_csr x.decoders csr.spec.request ≡ err e
        → Course (returned none) sg (get name ∷ unable ∷ [])
    unrecognized :
        (csr : CertificateSigningRequest) (cr : CertificateRequest)
        → IsWaiting csr
        → parse_csr x.decoders csr.spec.request ≡ ok cr
        → (IsServing csr cr → ⊥)
        → Course (returned none) sg (get name ∷ [])
    unreviewed :
        (csr : CertificateSigningRequest) (cr : CertificateRequest) (e : Error)
        → IsRecognized csr cr
        → x.create_review (review_of csr permission) ≡ err e
        → Course (returned (some (wrap "error SubjectAccessReview: %v" e))) sg (reviewed csr [])
    denied :
        (csr : CertificateSigningRequest) (cr : CertificateRequest)
        → IsRecognized csr cr
        → x.create_review (review_of csr permission) ≡ ok false
        → Course (returned (some (message "SubjectAccessReview failed"))) sg (reviewed csr [])
    no_authority :
        (csr : CertificateSigningRequest) (cr : CertificateRequest)
        → IsRecognized csr cr
        → x.create_review (review_of csr permission) ≡ ok true
        → sign x.tools sg x.first_read x.second_read x.wall cr csr.spec ≡ none
        → Course panicked sg (reviewed csr [])
    unsigned :
        (csr : CertificateSigningRequest) (cr : CertificateRequest) (e : Error) (sg' : Signer)
        → IsRecognized csr cr
        → x.create_review (review_of csr permission) ≡ ok true
        → sign x.tools sg x.first_read x.second_read x.wall cr csr.spec ≡ some (err e, sg')
        → Course (returned (some (wrap "error auto signing csr: %v" e))) sg' (reviewed csr [])
    unpatched :
        (csr : CertificateSigningRequest) (cr : CertificateRequest) (cert : Text) (sg' : Signer)
        (e : Error)
        → IsSigned csr cr cert sg'
        → x.patch csr (record csr { certificate = some cert }) ≡ err e
        → Course (returned (some (wrap "error patching CSR: %v" e))) sg' (patched csr cert [])
    unapproved :
        (csr served : CertificateSigningRequest) (cr : CertificateRequest) (cert : Text)
        (sg' : Signer) (e : Error)
        → IsSigned csr cr cert sg'
        → x.patch csr (record csr { certificate = some cert }) ≡ ok served
        → x.approve (approval served) ≡ some e
        → Course
            (returned (some (wrap "error updating approval for csr: %v" e)))
            sg'
            (patched csr cert (update_approval (approval served) ∷ []))
    approved :
        (csr served : CertificateSigningRequest) (cr : CertificateRequest) (cert : Text)
        (sg' : Signer)
        → IsSigned csr cr cert sg'
        → x.patch csr (record csr { certificate = some cert }) ≡ ok served
        → x.approve (approval served) ≡ none
        → Course (returned none) sg' (
            patched csr cert (
              update_approval (approval served)
              ∷ event "Normal" "Signed" "The CSR has been signed"
              ∷ []))
