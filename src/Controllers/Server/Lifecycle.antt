-- ===== src/Controllers/Server/Lifecycle.antt =====
-- The life of a certificate signing request under the controller of
-- controllers/certificatesigningrequest_controller.go: what one call may make of a stored object,
-- and any number of calls.
use kucero.Base.{
  String, Text, ◌≡◌, ◌≢◌, refl, sym, inl, inr, Option, none, some, List, [], ◌∷◌, string_eq, true,
  ap,
}
use mathlib.Core.Path.{subst, ◌∙◌}
use kucero.Api.Error.{ok}
use kucero.Api.Csr.{CertificateSigningRequest, string_discrete}
use kucero.Api.X509.{CertificateRequest}
use kucero.Cert.Parser.{parse_csr}
use kucero.Signer.Sign.{Signer, sign}
use kucero.Controllers.Helper.Laws.{IsServing}
use kucero.Controllers.Reconcile.{is_zero, review_of, append_approval_condition}
use kucero.Controllers.Reconcile.Approval.{permission, success_message}
use kucero.Controllers.Server.{Objects, Store, IsStore, update, Answers, env_of, serve}
use kucero.Controllers.Server.Traces.{IsIssuing}
use kucero.Controllers.Server.Effect.{serve-cases, issued, approved, serve-IsKeyed}
use kucero.Controllers.Server.Keys.{IsKeyed, update-same, update-other}

-- Why a call for `name` may issue `cert` for the request `c`: it has that name, lives, has no certificate, parses to a
-- kubelet serving request, passes the review, and `cert` is what the signer makes of it.
pub record MayIssue (a : Answers) (name : String) (sg : Signer) (c : CertificateSigningRequest)
    (cert : Text) : Type 0 where
  pub request : CertificateRequest
  pub named : c.name ≡ name
  pub live : is_zero c.deletion_timestamp ≡ true
  pub unsigned : c.certificate ≡ none
  pub parsed : parse_csr a.decoders c.spec.request ≡ ok request
  pub serving : IsServing c request
  pub allowed : a.create_review (review_of c permission) ≡ ok true
  pub signed :
      (sg' : Signer) × (sign a.tools sg a.first_read a.second_read a.wall request c.spec
        ≡ some (ok cert, sg'))

-- The states of a request: it stays what it is, gets a certificate, or gets that and the approval.
pub data Lifecycle (a : Answers) (name : String) (sg : Signer)
    : CertificateSigningRequest → CertificateSigningRequest → Type 0 where
  stays : (c : CertificateSigningRequest) → Lifecycle a name sg c c
  issues :
      (c : CertificateSigningRequest) (cert : Text)
      → MayIssue a name sg c cert
      → Lifecycle a name sg c (record c { certificate = some cert })
  issues_and_approves :
      (c : CertificateSigningRequest) (cert : Text)
      → MayIssue a name sg c cert
      → Lifecycle a name sg c
          (append_approval_condition a.wall (record c { certificate = some cert }) success_message)

set_xor_unset : {o : Option Text} {cert : Text} → o ≡ some cert → o ≡ none → ⊥
set_xor_unset p q = absurd cc

still :
    {a : Answers} {name : String} {sg : Signer} (c c' : CertificateSigningRequest) (cert : Text)
    → c.certificate ≡ some cert
    → Lifecycle a name sg c c'
    → c' ≡ c
still c c' cert done (stays _) = refl
still c c' cert done (issues _ _ may) = absurd (set_xor_unset done may.unsigned)
still c c' cert done (issues_and_approves _ _ may) = absurd (set_xor_unset done may.unsigned)

module _ (w : Store) (good : IsStore w) (a : Answers) (name : String) (objects : Objects)
    (sg : Signer) where
  MayIssue-of :
      (c : CertificateSigningRequest) (cr : CertificateRequest) (cert : Text)
      → c.name ≡ name
      → IsIssuing (env_of w objects a) name sg c cr cert
      → MayIssue a name sg c cert
  MayIssue-of c cr cert named i = record {
    request = cr;
    named = named;
    live = i.live;
    unsigned = i.unsigned;
    parsed = i.parsed;
    serving = i.serving;
    allowed = i.allowed;
    signed = i.signed;
  }

  abbrev Moves : Objects → String → CertificateSigningRequest → Type 0
  Moves later n c =
      (c' : CertificateSigningRequest) × (later n ≡ some c') × Lifecycle a name sg c c'

  -- Only the object called `name` changed, and it moved by a step.
  one-Moves :
      (later : Objects) (n : String) (c d new : CertificateSigningRequest)
      → objects name ≡ some d
      → objects n ≡ some c
      → later name ≡ some new
      → (name ≢ n → later n ≡ objects n)
      → Lifecycle a name sg d new
      → Moves later n c
  one-Moves later n c d new there here now other moved = elim (string_discrete name n) [
    | no apart ↦ (c, other apart ∙ here, stays c)
    | yes same ↦
        let here' : objects name ≡ some c =
          subst (λ (m : String). objects m ≡ some c) (sym same) here in
        let one : d ≡ c = cc in
        (
          new,
          subst (λ (m : String). later m ≡ some new) same now,
          subst (λ (d : CertificateSigningRequest). Lifecycle a name sg d new) one moved,
        )
  ]

  -- On a server that behaves as documented, with every object under its own name, one call of
  -- `Reconcile` for `name`, whatever is refused on the way, keeps every object, and moves each by a
  -- step of its life: it stays what it is, or it is the object `name`, for which a certificate may be
  -- issued, and it gets exactly that, alone or with the approval.
  pub serve-Lifecycle :
      IsKeyed objects
      → (n : String) (c : CertificateSigningRequest) → objects n ≡ some c
      → (c' : CertificateSigningRequest) × ((serve w a name (objects, sg)).0 n ≡ some c')
        × Lifecycle a name sg c c'
  serve-Lifecycle keyed n c here = elim (serve-cases w a name objects sg good keyed) [
    | inl same ↦ (c, rw same here, stays c)
    | inr (d, cr, cert, known, issuing, inl once) ↦
        let may = MayIssue-of d cr cert (keyed name d known) issuing in
        let new = issued w a name objects sg d cert in
        subst (λ (later : Objects). Moves later n c) (sym once)
          (one-Moves (update objects name new) n c d new known here (update-same objects name new)
            (λ apart. update-other objects name new n apart) (issues d cert may))
    | inr (d, cr, cert, known, issuing, inr twice) ↦
        let may = MayIssue-of d cr cert (keyed name d known) issuing in
        let middle : Objects = update objects name (issued w a name objects sg d cert) in
        let new = approved w a name objects sg d cert in
        subst (λ (later : Objects). Moves later n c) (sym twice)
          (one-Moves (update middle name new) n c d new known here (update-same middle name new)
            (λ apart.
              update-other middle name new n apart
              ∙ update-other objects name (issued w a name objects sg d cert) n apart)
            (issues_and_approves d cert may))
  ]

  serve-keeps :
      (n : String) (c : CertificateSigningRequest) (cert : Text)
      → IsKeyed objects
      → objects n ≡ some c
      → c.certificate ≡ some cert
      → (serve w a name (objects, sg)).0 n ≡ some c
  serve-keeps n c cert keyed here done =
      let (c', later, moved) = serve-Lifecycle keyed n c here in
      later ∙ ap some (still c c' cert done moved)

module _ (w : Store) where
  unfoldable pub serve_all : List (Answers × String) → Objects × Signer → Objects × Signer
  serve_all [] s = s
  serve_all ((a, name) ∷ calls) s = serve_all calls (serve w a name s)

  -- On a server that behaves as documented, with every object under its own name, a request that has
  -- a certificate is not changed by any number of calls for any requests, whatever is refused on the
  -- way: neither its certificate nor its conditions, so that one whose approval failed is not
  -- approved later.
  pub serve_all-keeps :
      IsStore w
      → (calls : List (Answers × String)) (objects : Objects) (sg : Signer) (n : String)
        (c : CertificateSigningRequest) (cert : Text)
      → IsKeyed objects
      → objects n ≡ some c
      → c.certificate ≡ some cert
      → (serve_all calls (objects, sg)).0 n ≡ some c
  unfolding serve_all
  serve_all-keeps good [] objects sg n c cert keyed here done = here
  serve_all-keeps good ((a, name) ∷ calls) objects sg n c cert keyed here done =
      serve_all-keeps good calls (serve w a name (objects, sg)).0 (serve w a name (objects, sg)).1 n
        c cert (serve-IsKeyed w a name objects sg good keyed)
        (serve-keeps w good a name objects sg n c cert keyed here done) done
