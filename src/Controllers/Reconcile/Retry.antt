-- ===== src/Controllers/Reconcile/Retry.antt =====
-- `Reconcile` of controllers/certificatesigningrequest_controller.go, called once and called again:
-- requests that are done, requests that are served, and approvals that fail.
use kucero.Base.{String, Text, ◌≡◌, ◌⊎◌, inr, true, false, none, some, [], ◌∷◌, arith}
use kucero.Api.Error.{Error, wrap, ok}
use kucero.Api.Csr.{CertificateSigningRequest}
use kucero.Api.X509.{CertificateRequest}
use kucero.Cert.Parser.{parse_csr}
use kucero.Signer.Sign.{Signer, sign}
use kucero.Controllers.Helper.Laws.{IsServing, is_node_serving_cert_iff}
use kucero.Controllers.Reconcile.{
  found, get, review, patch_status, update_approval, event, Env, returned, is_zero, review_of,
  append_approval_condition, reconcile,
}
use kucero.Controllers.Reconcile.Approval.{fresh, permission, success_message}

module _ (x : Env) (name : String) (sg : Signer) (csr : CertificateSigningRequest) where
  -- A request that is deleted or already has a certificate is read and left alone, without error.
  pub reconcile_done :
      x.get_csr name ≡ found csr
      → (is_zero csr.deletion_timestamp ≡ false) ⊎ ((cert : Text) × (csr.certificate ≡ some cert))
      → reconcile x name (fresh sg)
        ≡ (returned none, record { signer = sg; actions = get name ∷ [] })
  unfolding reconcile
  reconcile_done got done = ground arith

  module _ (cr : CertificateRequest) (cert : Text) (served : CertificateSigningRequest) where
    -- A kubelet serving request that is new, passes the review, is signed and patched: it is read,
    -- reviewed, patched and sent for approval, in this order. If the approval is taken, the event
    -- follows and there is no error; if not, its error is returned.
    pub reconcile_serving :
        (sg' : Signer)
        → x.get_csr name ≡ found csr
        → is_zero csr.deletion_timestamp ≡ true
        → csr.certificate ≡ none
        → parse_csr x.decoders csr.spec.request ≡ ok cr
        → IsServing csr cr
        → x.create_review (review_of csr permission) ≡ ok true
        → sign x.tools sg x.first_read x.second_read x.wall cr csr.spec ≡ some (ok cert, sg')
        → x.patch csr (record csr { certificate = some cert }) ≡ ok served
        → let c = append_approval_condition x.wall served success_message in
          reconcile x name (fresh sg) ≡ elim (x.approve c) [
            | none ↦ (
              returned none,
              record {
                signer = sg';
                actions =
                    get name
                    ∷ review (review_of csr permission)
                    ∷ patch_status csr (record csr { certificate = some cert })
                    ∷ update_approval c
                    ∷ event "Normal" "Signed" "The CSR has been signed"
                    ∷ [];
              },
            )
            | some e ↦ (
              returned (some (wrap "error updating approval for csr: %v" e)),
              record {
                signer = sg';
                actions =
                    get name
                    ∷ review (review_of csr permission)
                    ∷ patch_status csr (record csr { certificate = some cert })
                    ∷ update_approval c
                    ∷ [];
              },
            )
          ]
    unfolding reconcile append_approval_condition
    reconcile_serving sg' got live unsigned parsed serving allowed signed patched =
        ground (arith, (is_node_serving_cert_iff csr cr).1 serving)

-- An approval that fails after the patch is not made up for. The first run returns the error, so
-- that it is repeated; but the repetition reads the patched request, which has a certificate, and
-- sends no approval, without an error.
pub approval_lost :
    (x y : Env) (name : String) (sg sg' : Signer) (csr served : CertificateSigningRequest)
    (cr : CertificateRequest) (cert : Text) (e : Error)
    → x.get_csr name ≡ found csr
    → is_zero csr.deletion_timestamp ≡ true
    → csr.certificate ≡ none
    → parse_csr x.decoders csr.spec.request ≡ ok cr
    → IsServing csr cr
    → x.create_review (review_of csr permission) ≡ ok true
    → sign x.tools sg x.first_read x.second_read x.wall cr csr.spec ≡ some (ok cert, sg')
    → x.patch csr (record csr { certificate = some cert }) ≡ ok served
    → x.approve (append_approval_condition x.wall served success_message) ≡ some e
    → served.certificate ≡ some cert
    → y.get_csr name ≡ found served
    → ((reconcile x name (fresh sg)).0
        ≡ returned (some (wrap "error updating approval for csr: %v" e)))
      × (reconcile y name (fresh sg')
          ≡ (returned none, record { signer = sg'; actions = get name ∷ [] }))
approval_lost x y name sg sg' csr served cr cert e got live new parsed serving allowed signed
      patched refused kept again =
    (
      rw
          (reconcile_serving x name sg csr cr cert served sg' got live new parsed serving allowed
            signed patched)
          (rw refused),
      reconcile_done y name sg' served again (inr (cert, kept)),
    )
