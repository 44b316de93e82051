-- ===== src/Controllers/Reconcile.antt =====
-- controllers/certificatesigningrequest_controller.go. The API server, the clock and the loader of
-- the signer answer through `Env`; the requests that go out are recorded in `actions`, oldest
-- first. Logging is left out, and so is the list `tried`, which nothing reads.
pub mod Approval
pub mod Retry
pub mod Ready
pub mod Course
mod Tests
use kucero.Base.{
  String, Text, Bool, true, false, Option, none, some, List, [], ◌∷◌, ◌++◌, ℤ, pos_part, neg_part,
  ◌==◌, ◌&&◌, nat_eq, string_eq, not, if◌then◌else◌,
}
use kucero.Api.Time.{Time, zero_time}
use kucero.Api.Error.{Error, message, about, wrap, Result, ok, err}
use kucero.Api.Csr.{CertificateSigningRequest, Condition}
use kucero.Api.X509.{CertificateRequest}
use kucero.Cert.Parser.{Decoders, parse_csr}
use kucero.Signer.CaProvider.{Content}
use kucero.Signer.Sign.{Signer, Tools, sign}
pub use kucero.Controllers.Types.{
  ResourceAttributes, CsrRecognizer, SubjectAccessReview, Got, found, not_found, failed, Action,
  get, review, patch_status, update_approval, event, Env, State, Outcome, returned, panicked,
}
use kucero.Controllers.Helper.{is_node_serving_cert}

abbrev pub recognizers : List CsrRecognizer
recognizers =
    record {
      recognize = is_node_serving_cert;
      permission = record {
        group = "certificates.k8s.io";
        resource = "certificatesigningrequests";
        verb = "create";
      };
      success_message = "Auto approving kubelet serving certificate after SubjectAccessReview.";
    }
    ∷ []

-- `CertificateSigningRequest{}`.
abbrev pub empty_csr : CertificateSigningRequest
empty_csr = record {
  name = "";
  deletion_timestamp = none;
  spec = record {
    request = [];
    username = "";
    uid = "";
    groups = [];
    extra = [];
    usages = [];
    expiration_seconds = none;
  };
  conditions = [];
  certificate = none;
}

abbrev pub act : Action → State → State
act a s = record s { actions = s.actions ++ (a ∷ []) }

-- `DeletionTimestamp.IsZero()`
unfoldable pub is_zero : Option Time → Bool
is_zero none = true
is_zero (some t) = pos_part t == pos_part zero_time && neg_part t == neg_part zero_time

-- The copy of the extra values in `authorize`.
unfoldable pub copy_extra : List (String × List String) → List (String × List String)
copy_extra [] = []
copy_extra ((k, v) ∷ m) = (k, v) ∷ copy_extra m

unfoldable pub review_of : CertificateSigningRequest → ResourceAttributes → SubjectAccessReview
unfolding copy_extra
review_of csr rattrs = record {
  user = csr.spec.username;
  uid = csr.spec.uid;
  groups = csr.spec.groups;
  extra = copy_extra csr.spec.extra;
  resource_attributes = rattrs;
}

-- `appendApprovalCondition`
unfoldable pub append_approval_condition :
    Time → CertificateSigningRequest → String → CertificateSigningRequest
append_approval_condition now csr text = record csr {
  conditions =
      csr.conditions
      ++ (record {
        kind = "Approved";
        status = "True";
        reason = "AutoApproved by kucero";
        message = text;
        last_update_time = now;
      }
          ∷ []);
}

-- One round of the loop over the recognizers: on to the next with the request as it is now, or the
-- end of `Reconcile`.
pub data Round : Type 0 where
  proceed : CertificateSigningRequest → State → Round
  stop : Outcome → State → Round

abbrev pub fail : Error → State → Round
fail e s = stop (returned (some e)) s

module _ (x : Env) where
  -- `authorize`: the review is created, and its answer counts.
  unfoldable pub authorize :
      CertificateSigningRequest → ResourceAttributes → State → Result Bool × State
  unfolding review_of
  authorize csr rattrs s = let r = review_of csr rattrs in (x.create_review r, act (review r) s)

  -- After a successful patch, `csr` is the object that the server returned.
  unfoldable pub approve_csr : CertificateSigningRequest → CsrRecognizer → State → Round
  unfolding append_approval_condition
  approve_csr csr r s =
      let csr' = append_approval_condition x.wall csr r.success_message in
      let s' = act (update_approval csr') s in
      elim (x.approve csr') [
        | some e ↦ fail (wrap "error updating approval for csr: %v" e) s'
        | none ↦ proceed csr' (act (event "Normal" "Signed" "The CSR has been signed") s')
      ]

  unfoldable pub patch_csr : CertificateSigningRequest → Text → CsrRecognizer → State → Round
  unfolding approve_csr
  patch_csr csr cert r s =
      let csr' = record csr { certificate = some cert } in
      let s' = act (patch_status csr csr') s in
      elim (x.patch csr csr') [
        | err e ↦ fail (wrap "error patching CSR: %v" e) s'
        | ok served ↦ approve_csr served r s'
      ]

  unfoldable pub sign_csr :
      CertificateSigningRequest → CertificateRequest → CsrRecognizer → State → Round
  unfolding patch_csr
  sign_csr csr x509cr r s =
      elim (sign x.tools s.signer x.first_read x.second_read x.wall x509cr csr.spec) [
        | none ↦ stop panicked s
        | some (signed, signer') ↦
            let s' = record s { signer = signer' } in
            elim signed [
              | err e ↦ fail (wrap "error auto signing csr: %v" e) s'
              | ok cert ↦ patch_csr csr cert r s'
            ]
      ]

  abbrev pub decided :
      CertificateSigningRequest → CertificateRequest → CsrRecognizer → Result Bool × State → Round
  decided csr x509cr r (err e, s) = fail (wrap "error SubjectAccessReview: %v" e) s
  decided csr x509cr r (ok true, s) = sign_csr csr x509cr r s
  decided csr x509cr r (ok false, s) = fail (message "SubjectAccessReview failed") s

  unfoldable pub try_recognizer :
      CertificateSigningRequest → CertificateRequest → CsrRecognizer → State → Round
  unfolding authorize sign_csr
  try_recognizer csr x509cr r s =
      if not (r.recognize csr x509cr)
      then proceed csr s
      else decided csr x509cr r (authorize csr r.permission s)

  unfoldable pub try_all :
      List CsrRecognizer → CertificateSigningRequest → CertificateRequest → State → Outcome × State
  unfolding try_recognizer
  try_all [] csr x509cr s = (returned none, s)
  try_all (r ∷ rs) csr x509cr s = elim (try_recognizer csr x509cr r s) [
    | proceed csr' s' ↦ try_all rs csr' x509cr s'
    | stop o s' ↦ (o, s')
  ]

  -- The `default` case of the switch.
  unfoldable pub sign_default : CertificateSigningRequest → State → Outcome × State
  unfolding try_all
  sign_default csr s = elim (parse_csr x.decoders csr.spec.request) [
    | err e ↦
        (returned none, act (event "Warning" "SigningFailed" "Unable to parse the CSR request") s)
    | ok x509cr ↦ try_all recognizers csr x509cr s
  ]

  -- The switch, on the object that `Get` filled.
  unfoldable pub dispatch : CertificateSigningRequest → State → Outcome × State
  unfolding sign_default is_zero
  dispatch csr s =
      if not (is_zero csr.deletion_timestamp)
      then (returned none, s)
      else elim csr.certificate [ some _ ↦ (returned none, s) | none ↦ sign_default csr s ]

  -- A request that is not found is not an error: the object stays empty.
  unfoldable pub reconcile : String → State → Outcome × State
  unfolding dispatch
  reconcile name s = elim (x.get_csr name) [
    | failed e ↦ (returned (some (wrap "error %q getting CSR" e)), act (get name) s)
    | not_found ↦ dispatch empty_csr (act (get name) s)
    | found csr ↦ dispatch csr (act (get name) s)
  ]

-- The part of `SetupWithManager` that chooses: the version of the API that is watched.
pub data Watched : Type 0 where
  v1beta1 v1 : Watched

unfoldable pub watched_version : String → Result Watched
watched_version version =
    if version == "v1beta1"
    then ok v1beta1
    else if version == "v1"
    then ok v1
    else err (about "unsupported certificates.k8s.io/%s" version)
