-- ===== src/Controllers/Server.antt =====
-- The API server with its certificate signing requests, and the controller of
-- controllers/certificatesigningrequest_controller.go that acts on them. The server is the
-- parameter `Store`, with its documented behaviour in `IsStore`; it may refuse any request.
pub mod Traces
pub mod Keys
pub mod Effect
pub mod Lifecycle
pub mod Progress
pub mod Origin
pub mod Issued
mod Tests
use kucero.Base.{
  ◌≡◌, String, List, [], ◌∷◌, Bool, Option, none, some, ◌==◌, string_eq, if◌then◌else◌,
}
use kucero.Api.Time.{Time}
use kucero.Api.Error.{Error, Result, ok, err}
use kucero.Api.Csr.{CertificateSigningRequest}
use kucero.Cert.Parser.{Decoders}
use kucero.Signer.CaProvider.{Content}
use kucero.Signer.Sign.{Signer, Tools}
use kucero.Controllers.Reconcile.{
  Env, Got, found, not_found, failed, Action, get, review, patch_status, update_approval, event,
  SubjectAccessReview, reconcile,
}
use kucero.Controllers.Reconcile.Approval.{fresh}

abbrev pub Objects : Type 0
Objects = String → Option CertificateSigningRequest

unfoldable pub update : Objects → String → CertificateSigningRequest → Objects
update objects name c other = if name == other then some c else objects other

-- What one call of `Reconcile` meets besides the objects: what the server refuses, its reviews, the
-- files, and the time.
pub record Answers : Type 0 where
  pub refused_get : Option Error
  pub create_review : SubjectAccessReview → Result Bool
  pub refused_patch : Option Error
  pub refused_approval : Option Error
  pub decoders : Decoders
  pub tools : Tools
  pub first_read : Content
  pub second_read : Content
  pub wall : Time

-- What the server does with a request that it accepts: a patch of the status, with the object that
-- it returns, and an update of the approval.
pub record Store : Type 0 where
  pub patch : Objects → CertificateSigningRequest → CertificateSigningRequest × Objects
  pub approve : Objects → CertificateSigningRequest → Objects

-- A patch of the status sets the certificate of the stored object and returns that object; an
-- update of the approval sets its conditions.
pub record IsStore (w : Store) : Type 0 where
  pub patch-returned :
      (objects : Objects) (c new : CertificateSigningRequest)
      → objects new.name ≡ some c
      → (w.patch objects new).0 ≡ record c { certificate = new.certificate }
  pub patch-stored :
      (objects : Objects) (c new : CertificateSigningRequest)
      → objects new.name ≡ some c
      → (w.patch objects new).1
        ≡ update objects new.name (record c { certificate = new.certificate })
  pub approve-stored :
      (objects : Objects) (c new : CertificateSigningRequest)
      → objects new.name ≡ some c
      → w.approve objects new ≡ update objects new.name (record c { conditions = new.conditions })

abbrev pub got_of : Option Error → Option CertificateSigningRequest → Got
got_of (some e) o = failed e
got_of none none = not_found
got_of none (some c) = found c

module _ (w : Store) where
  abbrev pub patched_of :
      Option Error → Objects → CertificateSigningRequest → Result CertificateSigningRequest
  patched_of (some e) objects new = err e
  patched_of none objects new = ok (w.patch objects new).0

  abbrev pub set_certificate : Option Error → Objects → CertificateSigningRequest → Objects
  set_certificate (some e) objects new = objects
  set_certificate none objects new = (w.patch objects new).1

  abbrev pub set_conditions : Option Error → Objects → CertificateSigningRequest → Objects
  set_conditions (some e) objects new = objects
  set_conditions none objects new = w.approve objects new

  abbrev pub env_of : Objects → Answers → Env
  env_of objects a = record {
    get_csr = λ name. got_of a.refused_get (objects name);
    create_review = a.create_review;
    patch = λ old new. patched_of a.refused_patch objects new;
    approve = λ c. a.refused_approval;
    decoders = a.decoders;
    tools = a.tools;
    first_read = a.first_read;
    second_read = a.second_read;
    wall = a.wall;
  }

  -- What an action of the controller makes of the objects.
  unfoldable pub apply : Answers → Action → Objects → Objects
  apply a (patch_status old new) objects = set_certificate a.refused_patch objects new
  apply a (update_approval new) objects = set_conditions a.refused_approval objects new
  apply a (get name) objects = objects
  apply a (review r) objects = objects
  apply a (event kind reason text) objects = objects

  unfoldable pub apply_all : Answers → List Action → Objects → Objects
  apply_all a [] objects = objects
  apply_all a (action ∷ actions) objects = apply_all a actions (apply a action objects)

  -- One call of `Reconcile` against the server: the objects and the signer after it.
  unfoldable pub serve : Answers → String → Objects × Signer → Objects × Signer
  serve a name (objects, sg) =
      let (o, s) = reconcile (env_of objects a) name (fresh sg) in
      (apply_all a s.actions objects, s.signer)
