-- ===== src/Controllers/Server/Progress.antt =====
-- A serving request on the server gets its certificate from
-- controllers/certificatesigningrequest_controller.go.
mod Tests
use kucero.Base.{
  String, Text, ◌≡◌, refl, sym, ap, ◌∙◌, ◌⊎◌, inl, inr, true, Option, none, some, List, [], ◌∷◌,
  ◌++◌, string_eq, Option-cases,
}
use mathlib.Core.Path.{subst}
use kucero.Api.Error.{Error, ok}
use kucero.Api.Csr.{CertificateSigningRequest}
use kucero.Api.X509.{CertificateRequest}
use kucero.Cert.Parser.{parse_csr}
use kucero.Signer.Sign.{Signer, sign}
use kucero.Controllers.Helper.Laws.{IsServing}
use kucero.Controllers.Reconcile.{found, is_zero, review_of, append_approval_condition, reconcile}
use kucero.Controllers.Reconcile.Approval.{fresh, permission, success_message}
use kucero.Controllers.Reconcile.Retry.{reconcile_serving}
use kucero.Controllers.Server.{
  Objects, Store, IsStore, update, Answers, env_of, got_of, patched_of, set_certificate,
  set_conditions, apply, apply_all, serve,
}
use kucero.Controllers.Server.Keys.{IsKeyed, update-same}
use kucero.Controllers.Server.Effect.{set_certificate-ok, serve-IsKeyed}
use kucero.Controllers.Server.Lifecycle.{serve-Lifecycle, serve_all, serve_all-keeps}
use kucero.Controllers.Server.Origin.{Lifecycle-cases}

-- A request that waits for a certificate, and what one call meets that lets it have one.
pub record IsServed (a : Answers) (sg : Signer) (c : CertificateSigningRequest)
    (cr : CertificateRequest) (cert : Text) : Type 0 where
  pub live : is_zero c.deletion_timestamp ≡ true
  pub unsigned : c.certificate ≡ none
  pub parsed : parse_csr a.decoders c.spec.request ≡ ok cr
  pub serving : IsServing c cr
  pub allowed : a.create_review (review_of c permission) ≡ ok true
  pub signed :
      (sg' : Signer) × (sign a.tools sg a.first_read a.second_read a.wall cr c.spec
        ≡ some (ok cert, sg'))
  pub read : a.refused_get ≡ none
  pub written : a.refused_patch ≡ none

module _ (w : Store) (good : IsStore w) (a : Answers) (name : String) (objects : Objects)
    (sg : Signer) (c : CertificateSigningRequest) (cr : CertificateRequest) (cert : Text) where
  -- The request with its certificate, and with the approval unless that was refused.
  abbrev pub settled : Option Error → CertificateSigningRequest
  settled none =
      append_approval_condition a.wall (record c { certificate = some cert }) success_message
  settled (some e) = record c { certificate = some cert }

  settled-certificate : (refused : Option Error) → (settled refused).certificate ≡ some cert
  unfolding append_approval_condition
  settled-certificate none = refl
  settled-certificate (some e) = refl

  served_run :
      objects name ≡ some c
      → c.name ≡ name
      → IsServed a sg c cr cert
      → (serve w a name (objects, sg)).0
        ≡ set_conditions w a.refused_approval
            (update objects name (record c { certificate = some cert }))
            (append_approval_condition a.wall
              (record c { certificate = some cert })
              success_message)
  unfolding serve apply_all apply
  served_run here named i =
      let new : CertificateSigningRequest = record c { certificate = some cert } in
      let x = env_of w objects a in
      let (sg', signed) = i.signed in
      let got : x.get_csr name ≡ found c = rw (i.read, here) refl in
      let known : objects c.name ≡ some c = ap objects named ∙ here in
      let patched : x.patch c new ≡ ok (w.patch objects new).0 = rw i.written refl in
      let (same, stored) =
        set_certificate-ok w good a.refused_patch objects c new (w.patch objects new).0 known
          patched in
      let ran =
        reconcile_serving x name sg c cr cert new sg' got i.live i.unsigned i.parsed i.serving
          i.allowed signed (patched ∙ ap (λ o. ok o) same) in
      elim (Option-cases a.refused_approval) [
        | inl taken ↦ rw (ran, taken, stored, named) refl
        | inr (e, refused) ↦ rw (ran, refused, stored, named) refl
      ]

  -- On a server that behaves as documented, with every object under its own name, a serving request
  -- without a certificate is called for, the review allows it, the signer signs it, and neither the
  -- read nor the patch is refused. Then the request has the certificate after this one call, and the
  -- approval too unless that was refused.
  pub serve-settled :
      IsKeyed objects
      → objects name ≡ some c
      → IsServed a sg c cr cert
      → (serve w a name (objects, sg)).0 name ≡ some (settled a.refused_approval)
  unfolding append_approval_condition
  serve-settled keyed here i =
      let new : CertificateSigningRequest = record c { certificate = some cert } in
      let middle : Objects = update objects name new in
      let named = keyed name c here in
      let run = served_run here named i in
      elim (Option-cases a.refused_approval) [
        | inr (e, refused) ↦ rw (run, refused) (update-same objects name new)
        | inl taken ↦
            let final : CertificateSigningRequest =
              append_approval_condition a.wall new success_message in
            let known : middle final.name ≡ some new =
              ap middle named ∙ update-same objects name new in
            let stored = good.approve-stored middle new final known in
            rw (run, taken)
              (ap (λ (o : Objects). o name) stored
                ∙ ap (λ n. update middle n final name) named
                ∙ update-same middle name final)
      ]

module _ (w : Store) where
  serve_all-append :
      (before after : List (Answers × String)) (s : Objects × Signer)
      → serve_all w (before ++ after) s ≡ serve_all w after (serve_all w before s)
  unfolding serve_all
  serve_all-append [] after s = refl
  serve_all-append ((a, name) ∷ before) after s = serve_all-append before after (serve w a name s)

  module _ (good : IsStore w) where
    -- After any calls the objects are under their names, and a request has a certificate or is what it was.
    serve_all-waits :
        (calls : List (Answers × String)) (objects : Objects) (sg : Signer) (n : String)
        (c : CertificateSigningRequest)
        → IsKeyed objects
        → objects n ≡ some c
        → IsKeyed (serve_all w calls (objects, sg)).0
          × (((serve_all w calls (objects, sg)).0 n ≡ some c)
              ⊎ ((c' : CertificateSigningRequest) × (cert : Text) × ((serve_all w calls
                        (objects, sg)).0
                      n
                    ≡ some c')
                  × (c'.certificate ≡ some cert)))
    unfolding serve_all
    serve_all-waits [] objects sg n c keyed here = (keyed, inl here)
    serve_all-waits ((a, name) ∷ calls) objects sg n c keyed here =
        let s = serve w a name (objects, sg) in
        let (c₁, now, moved) = serve-Lifecycle w good a name objects sg keyed n c here in
        let keyed' = serve-IsKeyed w a name objects sg good keyed in
        elim (Lifecycle-cases c c₁ moved) [
          | inl still ↦ serve_all-waits calls s.0 s.1 n c keyed' (now ∙ ap some still)
          | inr (cert, done, _) ↦
              let (keyed'', _) = serve_all-waits calls s.0 s.1 n c₁ keyed' now in
              (
                keyed'',
                inr (
                  c₁,
                  cert,
                  serve_all-keeps w good calls s.0 s.1 n c₁ cert keyed' now done,
                  done,
                ),
              )
        ]

    -- On a server that behaves as documented, with every object under its own name, a request has a
    -- certificate for good after a call for it in which the review allows it, the signer of that
    -- moment signs it, and neither the read nor the patch is refused: whatever calls, with whatever
    -- refusals, came before and come after.
    pub serve_all-signs :
        (before after : List (Answers × String)) (a : Answers) (name : String) (objects : Objects)
        (sg : Signer) (c : CertificateSigningRequest) (cr : CertificateRequest) (cert : Text)
        → IsKeyed objects
        → objects name ≡ some c
        → IsServed a (serve_all w before (objects, sg)).1 c cr cert
        → (c' : CertificateSigningRequest) × (cert' : Text) × ((serve_all w
                (before ++ ((a, name) ∷ after))
                (objects, sg)).0
              name
            ≡ some c')
          × (c'.certificate ≡ some cert')
    unfolding serve_all
    serve_all-signs before after a name objects sg c cr cert keyed here i =
        let s = serve_all w before (objects, sg) in
        let later = (a, name) ∷ after in
        let whole =
          ap (λ (r : Objects × Signer). r.0 name) (serve_all-append before later (objects, sg)) in
        let (keyed', waits) = serve_all-waits before objects sg name c keyed here in
        elim waits [
          | inr (c', cert', now, done) ↦ (
            c',
            cert',
            whole ∙ serve_all-keeps w good later s.0 s.1 name c' cert' keyed' now done,
            done,
          )
          | inl still ↦
              let now = serve-settled w good a name s.0 s.1 c cr cert keyed' still i in
              let c' = settled w good a name s.0 s.1 c cr cert a.refused_approval in
              let done = settled-certificate w good a name s.0 s.1 c cr cert a.refused_approval in
              let s' = serve w a name s in
              let keyed'' = serve-IsKeyed w a name s.0 s.1 good keyed' in
              (
                c',
                cert,
                whole ∙ serve_all-keeps w good after s'.0 s'.1 name c' cert keyed'' now done,
                done,
              )
        ]
