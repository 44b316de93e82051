-- ===== src/Controllers/Server/Traces.antt =====
-- The actions of `Reconcile` in controllers/certificatesigningrequest_controller.go that change the
-- server's objects.
use kucero.Base.{
  String, Text, ◌≡◌, refl, sym, ap, ◌⊎◌, inl, inr, Bool, true, false, none, some, List, [], ◌∷◌,
  all,
}
use kucero.Api.Error.{Error, ok, err}
use kucero.Api.Csr.{CertificateSigningRequest}
use kucero.Api.X509.{CertificateRequest}
use kucero.Cert.Parser.{parse_csr}
use kucero.Signer.Sign.{Signer, sign}
use kucero.Controllers.Helper.Laws.{IsServing}
use mathlib.Core.Path.{subst}
use kucero.Controllers.Reconcile.Course.{Course, IsSigned}
use kucero.Controllers.Reconcile.Course.Laws.{reconcile-Course}
use kucero.Controllers.Reconcile.{
  Outcome, found, Action, get, review, patch_status, update_approval, event, Env, is_zero,
  review_of, append_approval_condition, reconcile,
}
use kucero.Controllers.Reconcile.Approval.{fresh, permission, success_message}

-- The action changes no object.
abbrev pub is_quiet : Action → Bool
is_quiet (patch_status old new) = false
is_quiet (update_approval c) = false
is_quiet (get name) = true
is_quiet (review r) = true
is_quiet (event kind reason text) = true

module _ (x : Env) (name : String) (sg : Signer) where
  -- A request for which a certificate is sent.
  pub record IsIssuing (csr : CertificateSigningRequest) (cr : CertificateRequest) (cert : Text)
      : Type 0 where
    pub got : x.get_csr name ≡ found csr
    pub live : is_zero csr.deletion_timestamp ≡ true
    pub unsigned : csr.certificate ≡ none
    pub parsed : parse_csr x.decoders csr.spec.request ≡ ok cr
    pub serving : IsServing csr cr
    pub allowed : x.create_review (review_of csr permission) ≡ ok true
    pub signed :
        (sg' : Signer) × (sign x.tools sg x.first_read x.second_read x.wall cr csr.spec
          ≡ some (ok cert, sg'))

  -- What follows the patch.
  abbrev pub Follows : CertificateSigningRequest → CertificateSigningRequest → List Action → Type 0
  Follows csr csr' rest =
      ((e : Error) × (x.patch csr csr' ≡ err e) × (rest ≡ []))
      ⊎ ((served : CertificateSigningRequest) × (tail : List Action) × (x.patch csr csr'
            ≡ ok served)
          × (rest
              ≡ update_approval (append_approval_condition x.wall served success_message) ∷ tail)
          × (all is_quiet tail ≡ true))

  abbrev pub Did : List Action → Type 0
  Did l =
      (all is_quiet l ≡ true)
      ⊎ ((csr : CertificateSigningRequest) × (cr : CertificateRequest) × (cert : Text)
          × (rest : List Action) × IsIssuing csr cr cert
          × (l
              ≡ get name
                ∷ review (review_of csr permission)
                ∷ patch_status csr (record csr { certificate = some cert })
                ∷ rest)
          × Follows csr (record csr { certificate = some cert }) rest)

  IsSigned-IsIssuing :
      (csr : CertificateSigningRequest) (cr : CertificateRequest) (cert : Text) (sg' : Signer)
      → IsSigned x name sg csr cr cert sg'
      → IsIssuing csr cr cert
  IsSigned-IsIssuing csr cr cert sg' s = record {
    got = s.recognized.waiting.got;
    live = s.recognized.waiting.live;
    unsigned = s.recognized.waiting.unsigned;
    parsed = s.recognized.parsed;
    serving = s.recognized.serving;
    allowed = s.allowed;
    signed = (sg', s.signed);
  }

  Course-Did : {o : Outcome} {sg' : Signer} {l : List Action} → Course x name sg o sg' l → Did l
  Course-Did (Course.unread e bad) = inl refl
  Course-Did (Course.gone_unparsed e gone bad) = inl refl
  Course-Did (Course.gone_parsed cr gone parsed) = inl refl
  Course-Did (Course.deleted csr got dead) = inl refl
  Course-Did (Course.has_certificate csr cert got done) = inl refl
  Course-Did (Course.unparsed csr e w bad) = inl refl
  Course-Did (Course.unrecognized csr cr w parsed other) = inl refl
  Course-Did (Course.unreviewed csr cr e r bad) = inl refl
  Course-Did (Course.denied csr cr r refused) = inl refl
  Course-Did (Course.no_authority csr cr r allowed panics) = inl refl
  Course-Did (Course.unsigned csr cr e sg' r allowed bad) = inl refl
  Course-Did (Course.unpatched csr cr cert sg' e s bad) =
      inr (csr, cr, cert, [], IsSigned-IsIssuing csr cr cert sg' s, refl, inl (e, bad, refl))
  Course-Did (Course.unapproved csr served cr cert sg' e s taken bad) = inr (
    csr,
    cr,
    cert,
    _,
    IsSigned-IsIssuing csr cr cert sg' s,
    refl,
    inr (served, [], taken, refl, refl),
  )
  Course-Did (Course.approved csr served cr cert sg' s taken fine) = inr (
    csr,
    cr,
    cert,
    _,
    IsSigned-IsIssuing csr cr cert sg' s,
    refl,
    inr (served, event "Normal" "Signed" "The CSR has been signed" ∷ [], taken, refl, refl),
  )

  pub reconcile-Did : Did (reconcile x name (fresh sg)).1.actions
  reconcile-Did =
      let (o, sg', l, ran, course) = reconcile-Course x name sg in
      subst Did (ap (λ r. r.1.actions) (sym ran)) (Course-Did course)
