-- ===== src/Controllers/Reconcile/Approval.antt =====
-- The approvals of `Reconcile` in controllers/certificatesigningrequest_controller.go.
use kucero.Base.{
  String, Text, ◌≡◌, refl, ◌⊎◌, inl, inr, true, false, none, some, List, [], ◌∷◌, arith,
  Option-cases,
}
use kucero.Api.Error.{Error, ok, err, Result-cases}
use kucero.Api.Csr.{CertificateSigningRequest}
use kucero.Api.X509.{CertificateRequest}
use kucero.Cert.Parser.{parse_csr}
use kucero.Signer.Sign.{Signer, sign}
use kucero.Controllers.Helper.{is_node_serving_cert}
use kucero.Controllers.Helper.Laws.{IsServing, is_node_serving_cert_iff}
use kucero.Controllers.Reconcile.{
  ResourceAttributes, Got, found, not_found, failed, Action, get, review, patch_status,
  update_approval, event, Env, State, Outcome, is_zero, review_of, append_approval_condition,
  reconcile, empty_csr,
}

-- The objects whose approval was sent, oldest first.
abbrev pub approvals : List Action → List CertificateSigningRequest
approvals [] = []
approvals (update_approval c ∷ l) = c ∷ approvals l
approvals (_ ∷ l) = approvals l

pub Got-cases :
    (g : Got)
    → ((csr : CertificateSigningRequest) × (g ≡ found csr))
      ⊎ (g ≡ not_found)
      ⊎ ((e : Error) × (g ≡ failed e))
Got-cases (found csr) = inl (csr, refl)
Got-cases not_found = inr (inl refl)
Got-cases (failed e) = inr (inr (e, refl))

pub empty_unrecognized : (cr : CertificateRequest) → is_node_serving_cert empty_csr cr ≡ false
unfolding is_node_serving_cert
empty_unrecognized cr = ground arith

abbrev pub fresh : Signer → State
fresh sg = record { signer = sg; actions = [] }

abbrev pub permission : ResourceAttributes
permission = record {
  group = "certificates.k8s.io";
  resource = "certificatesigningrequests";
  verb = "create";
}

abbrev pub success_message : String
success_message = "Auto approving kubelet serving certificate after SubjectAccessReview."

module _ (x : Env) (name : String) (sg : Signer) where
  abbrev final : Outcome × State
  final = reconcile x name (fresh sg)

  -- What must have happened before the object `c` is sent for approval.
  pub record IsApproved (c csr : CertificateSigningRequest) (cr : CertificateRequest) (cert : Text)
      (served : CertificateSigningRequest) : Type 0 where
    pub got : x.get_csr name ≡ found csr
    pub live : is_zero csr.deletion_timestamp ≡ true
    pub unsigned : csr.certificate ≡ none
    pub parsed : parse_csr x.decoders csr.spec.request ≡ ok cr
    pub serving : IsServing csr cr
    pub allowed : x.create_review (review_of csr permission) ≡ ok true
    pub signed :
        (sg' : Signer) × (sign x.tools sg x.first_read x.second_read x.wall cr csr.spec
          ≡ some (ok cert, sg'))
    pub patched : x.patch csr (record csr { certificate = some cert }) ≡ ok served
    pub condition : c ≡ append_approval_condition x.wall served success_message

  empty_unapproved :
      (c : CertificateSigningRequest) (cs : List CertificateSigningRequest)
      → x.get_csr name ≡ not_found
      → approvals (reconcile x name (fresh sg)).1.actions ≡ c ∷ cs
      → ⊥
  unfolding reconcile
  empty_unapproved c cs missing h = elim (Result-cases (parse_csr x.decoders [])) [
    | inr (e, bad) ↦ ground arith
    | inl (cr, parsed) ↦ ground (arith, empty_unrecognized cr)
  ]

  -- An approval is sent only for a request that was found, is not deleted, had no certificate,
  -- parses, is a kubelet serving request, passed the access review, was signed and was patched with
  -- the certificate, and the actions before it are the read, the review and the patch.
  pub reconcile-IsApproved :
      (c : CertificateSigningRequest) (cs : List CertificateSigningRequest)
      → approvals (reconcile x name (fresh sg)).1.actions ≡ c ∷ cs
      → (csr : CertificateSigningRequest) × (cr : CertificateRequest) × (cert : Text)
        × (served : CertificateSigningRequest) × (rest : List Action) × IsApproved c csr cr cert
            served
        × ((reconcile x name (fresh sg)).1.actions
            ≡ get name
              ∷ review (review_of csr permission)
              ∷ patch_status csr (record csr { certificate = some cert })
              ∷ update_approval c
              ∷ rest)
  unfolding reconcile append_approval_condition
  reconcile-IsApproved c cs h = elim (Got-cases (x.get_csr name)) [
    | inr (inl e) ↦ absurd (empty_unapproved c cs e h)
    | inr (inr (e, bad)) ↦ absurd (ground arith)
    | inl (csr, got) ↦ elim (Result-cases (parse_csr x.decoders csr.spec.request)) [
      | inr (e, bad) ↦ absurd (ground arith)
      | inl (cr, parsed) ↦
          elim (Option-cases (sign x.tools sg x.first_read x.second_read x.wall cr csr.spec)) [
            | inl panic ↦ absurd (ground arith)
            | inr ((err e, sg'), signed) ↦ absurd (ground arith)
            | inr ((ok cert, sg'), signed) ↦
                elim (Result-cases (x.patch csr (record csr { certificate = some cert }))) [
                  | inr (e, bad) ↦ absurd (ground arith)
                  | inl (served, patched) ↦
                      let sent = append_approval_condition x.wall served success_message in
                      (
                        csr,
                        cr,
                        cert,
                        served,
                        elim (x.approve sent) [
                          | none ↦ event "Normal" "Signed" "The CSR has been signed" ∷ []
                          | some _ ↦ []
                        ],
                        record {
                          got = got;
                          live = ground arith;
                          unsigned = ground arith;
                          parsed = parsed;
                          serving = (is_node_serving_cert_iff csr cr).0 (ground arith);
                          allowed = ground arith;
                          signed = (sg', signed);
                          patched = patched;
                          condition = ground arith;
                        },
                        ground arith,
                      )
                ]
          ]
    ]
  ]
