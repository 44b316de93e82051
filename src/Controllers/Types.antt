-- ===== src/Controllers/Types.antt =====
-- What `Reconcile` of controllers/certificatesigningrequest_controller.go works on: its recognizers,
-- its reviews, the answers that it gets, the requests that it sends, and how it ends.
use kucero.Base.{String, Bool, Option, List, nat_eq, string_eq}
use kucero.Api.Time.{Time}
use kucero.Api.Error.{Error, Result}
use kucero.Api.Csr.{CertificateSigningRequest}
use kucero.Api.X509.{CertificateRequest}
use kucero.Cert.Parser.{Decoders}
use kucero.Signer.CaProvider.{Content}
use kucero.Signer.Sign.{Signer, Tools}

-- `authorization.ResourceAttributes`.
pub record ResourceAttributes : Type 0 where
  pub group : String
  pub resource : String
  pub verb : String

pub record CsrRecognizer : Type 0 where
  pub recognize : CertificateSigningRequest → CertificateRequest → Bool
  pub permission : ResourceAttributes
  pub success_message : String

-- `authorization.SubjectAccessReviewSpec`.
pub record SubjectAccessReview : Type 0 where
  pub user : String
  pub uid : String
  pub groups : List String
  pub extra : List (String × List String)
  pub resource_attributes : ResourceAttributes

pub data Got : Type 0 where
  found : CertificateSigningRequest → Got
  not_found : Got
  failed : Error → Got

pub data Action : Type 0 where
  get : String → Action
  review : SubjectAccessReview → Action
  -- The object before the change and the object that is sent.
  patch_status : CertificateSigningRequest → CertificateSigningRequest → Action
  update_approval : CertificateSigningRequest → Action
  event : String → String → String → Action

-- The answers: `Get`, the field `Allowed` of a created review, the object that the server returns
-- for a patch, the error of an approval, and what the signer reads.
pub record Env : Type 0 where
  pub get_csr : String → Got
  pub create_review : SubjectAccessReview → Result Bool
  pub patch :
      CertificateSigningRequest → CertificateSigningRequest → Result CertificateSigningRequest
  pub approve : CertificateSigningRequest → Option Error
  pub decoders : Decoders
  pub tools : Tools
  pub first_read : Content
  pub second_read : Content
  pub wall : Time

pub record State : Type 0 where
  pub signer : Signer
  pub actions : List Action

-- How a call ends: it returns an error or nil, or it panics.
pub data Outcome : Type 0 where
  returned : Option Error → Outcome
  panicked : Outcome
