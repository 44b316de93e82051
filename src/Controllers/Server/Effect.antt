-- ===== src/Controllers/Server/Effect.antt =====
-- The objects of the server after one call of `Reconcile` in
-- controllers/certificatesigningrequest_controller.go.
use kucero.Base.{
  String, Text, ◌≡◌, refl, sym, ◌⊎◌, inl, inr, true, Option, none, some, List, [], ◌∷◌, all, arith,
  Bool-cases, string_eq,
}
use mathlib.Core.Path.{subst, ◌∙◌}
use kucero.Api.Error.{Error, ok, err}
use kucero.Api.Csr.{CertificateSigningRequest}
use kucero.Api.X509.{CertificateRequest}
use kucero.Signer.Sign.{Signer}
use kucero.Controllers.Reconcile.{
  found, Action, get, review, patch_status, update_approval, event, review_of,
  append_approval_condition, reconcile,
}
use kucero.Controllers.Reconcile.Approval.{fresh, success_message, permission}
use kucero.Controllers.Server.{
  Objects, Store, IsStore, update, Answers, env_of, got_of, patched_of, set_certificate,
  set_conditions, apply, apply_all, serve,
}
use kucero.Controllers.Server.Keys.{IsKeyed, update-same, update-IsKeyed}
use kucero.Controllers.Server.Traces.{is_quiet, IsIssuing, reconcile-Did}

got_of-found :
    (refused : Option Error) (o : Option CertificateSigningRequest) (c : CertificateSigningRequest)
    → got_of refused o ≡ found c
    → o ≡ some c
got_of-found (some e) o c q = absurd cc
got_of-found none none c q = absurd cc
got_of-found none (some d) c q = cc

module _ (w : Store) where
  quiet-apply :
      (a : Answers) (action : Action) (objects : Objects)
      → is_quiet action ≡ true
      → apply w a action objects ≡ objects
  unfolding apply
  quiet-apply a (get n) objects q = refl
  quiet-apply a (review r) objects q = refl
  quiet-apply a (event k r t) objects q = refl
  quiet-apply a (patch_status c d) objects q = absurd cc
  quiet-apply a (update_approval c) objects q = absurd cc

  quiet-apply_all :
      (a : Answers) (l : List Action) (objects : Objects)
      → all is_quiet l ≡ true
      → apply_all w a l objects ≡ objects
  unfolding apply_all
  quiet-apply_all a [] objects q = refl
  quiet-apply_all a (action ∷ l) objects q = elim (Bool-cases (is_quiet action)) [
    | inr loud ↦ absurd (ground arith)
    | inl still ↦
        rw (quiet-apply a action objects still) (quiet-apply_all a l objects (ground arith))
  ]

  set_certificate-err :
      (refused : Option Error) (objects : Objects) (new : CertificateSigningRequest) (e : Error)
      → patched_of w refused objects new ≡ err e
      → set_certificate w refused objects new ≡ objects
  set_certificate-err (some d) objects new e q = refl
  set_certificate-err none objects new e q = absurd cc

  module _ (good : IsStore w) where
    pub set_certificate-ok :
        (refused : Option Error) (objects : Objects) (c new served : CertificateSigningRequest)
        → objects new.name ≡ some c
        → patched_of w refused objects new ≡ ok served
        → (served ≡ record c { certificate = new.certificate })
          × (set_certificate w refused objects new
              ≡ update objects new.name (record c { certificate = new.certificate }))
    set_certificate-ok (some d) objects c new served known q = absurd cc
    set_certificate-ok none objects c new served known q =
        let same : (w.patch objects new).0 ≡ served = cc in
        (sym same ∙ good.patch-returned objects c new known, good.patch-stored objects c new known)

    pub set_conditions-cases :
        (refused : Option Error) (objects : Objects) (c new : CertificateSigningRequest)
        → objects new.name ≡ some c
        → (set_conditions w refused objects new ≡ objects)
          ⊎ (set_conditions w refused objects new
              ≡ update objects new.name (record c { conditions = new.conditions }))
    set_conditions-cases (some d) objects c new known = inl refl
    set_conditions-cases none objects c new known = inr (good.approve-stored objects c new known)

module _ (w : Store) (a : Answers) (name : String) (objects : Objects) (sg : Signer) where
  abbrev pub after : Objects
  after = (serve w a name (objects, sg)).0

  -- The object with the certificate, and then with the approval as well.
  abbrev pub issued : CertificateSigningRequest → Text → CertificateSigningRequest
  issued c cert = record c { certificate = some cert }

  after_patch :
      (c : CertificateSigningRequest) (cert : Text) (rest : List Action)
      → (reconcile (env_of w objects a) name (fresh sg)).1.actions
        ≡ get name ∷ review (review_of c permission) ∷ patch_status c (issued c cert) ∷ rest
      → after ≡ apply_all w a rest (set_certificate w a.refused_patch objects (issued c cert))
  unfolding serve apply_all apply
  after_patch c cert rest did = rw did refl

  abbrev pub approved : CertificateSigningRequest → Text → CertificateSigningRequest
  approved c cert = append_approval_condition a.wall (issued c cert) success_message

  after_approval :
      (c served : CertificateSigningRequest) (cert : Text) (tail : List Action)
      → IsStore w
      → objects c.name ≡ some c
      → after
        ≡ apply_all w a
            (update_approval (append_approval_condition a.wall served success_message) ∷ tail)
            (set_certificate w a.refused_patch objects (issued c cert))
      → patched_of w a.refused_patch objects (issued c cert) ≡ ok served
      → all is_quiet tail ≡ true
      → (after ≡ update objects c.name (issued c cert))
        ⊎ (after ≡ update (update objects c.name (issued c cert)) c.name (approved c cert))
  unfolding apply_all apply append_approval_condition
  after_approval c served cert tail good known run patched still =
      let (same, stored) =
        set_certificate-ok w good a.refused_patch objects c (issued c cert) served known patched in
      let middle : Objects = update objects c.name (issued c cert) in
      let new : CertificateSigningRequest = approved c cert in
      let approval : after ≡ set_conditions w a.refused_approval middle new =
        rw (run, stored, same)
          (rw (quiet-apply_all w a tail (set_conditions w a.refused_approval middle new) still)
            refl) in
      elim (set_conditions-cases w good a.refused_approval middle (issued c cert) new
        (update-same objects c.name (issued c cert))) [
          | inl refused ↦ inl (rw (approval, refused) refl)
          | inr taken ↦ inr (rw (approval, taken) refl)
        ]

  pub serve-cases :
      IsStore w
      → IsKeyed objects
      → (after ≡ objects)
        ⊎ ((c : CertificateSigningRequest) × (cr : CertificateRequest) × (cert : Text) × (objects
                name
              ≡ some c)
            × IsIssuing (env_of w objects a) name sg c cr cert
            × ((after ≡ update objects name (issued c cert))
                ⊎ (after ≡ update (update objects name (issued c cert)) name (approved c cert))))
  unfolding serve apply_all
  serve-cases good keyed = elim (reconcile-Did (env_of w objects a) name sg) [
    | inl still ↦ inl (
        quiet-apply_all w a (reconcile (env_of w objects a) name (fresh sg)).1.actions objects
          still)
    | inr (c, cr, cert, rest, issuing, did, inl (e, bad, last)) ↦ inl (
        rw
          (
            after_patch c cert rest did,
            last,
            set_certificate-err w a.refused_patch objects (issued c cert) e bad,
          )
          refl)
    | inr (c, cr, cert, rest, issuing, did, inr (served, tail, patched, last, still)) ↦
        let known = got_of-found a.refused_get (objects name) c issuing.got in
        let named = keyed name c known in
        inr (
          c,
          cr,
          cert,
          known,
          issuing,
          subst
              (λ (n : String).
                (after ≡ update objects n (issued c cert))
                ⊎ (after ≡ update (update objects n (issued c cert)) n (approved c cert)))
              named
              (after_approval c served cert tail good
                (subst (λ (n : String). objects n ≡ some c) (sym named) known)
                (after_patch c cert
                  (update_approval (append_approval_condition a.wall served success_message) ∷ tail)
                  (rw (did, last) refl))
                patched still),
        )
  ]

  -- The objects stay stored under their names.
  pub serve-IsKeyed : IsStore w → IsKeyed objects → IsKeyed after
  unfolding append_approval_condition
  serve-IsKeyed good keyed = elim (serve-cases good keyed) [
    | inl same ↦ subst IsKeyed (sym same) keyed
    | inr (c, cr, cert, known, issuing, inl once) ↦
        subst IsKeyed (sym once)
          (update-IsKeyed objects name (issued c cert) keyed (keyed name c known))
    | inr (c, cr, cert, known, issuing, inr twice) ↦
        let middle = update-IsKeyed objects name (issued c cert) keyed (keyed name c known) in
        subst IsKeyed (sym twice) (
          update-IsKeyed (update objects name (issued c cert)) name (approved c cert) middle
            (keyed name c known))
  ]
