-- ===== src/Controllers/Server/Origin.antt =====
-- Where a certificate on the server comes from, over many calls of `Reconcile` in
-- controllers/certificatesigningrequest_controller.go: the call, the signer and the authority.
use kucero.Base.{
  String, Text, ◌≡◌, refl, sym, ap, ◌∙◌, ◌⊎◌, inl, inr, none, some, List, [], ◌∷◌, ◌++◌, All,
  string_eq,
}
use mathlib.Core.Path.{subst}
use kucero.Api.Time.{Duration}
use kucero.Api.Csr.{CertificateSigningRequest}
use kucero.Signer.CaProvider.{Parsers}
use kucero.Signer.Sign.{Signer}
use kucero.Controllers.Reconcile.{append_approval_condition, reconcile}
use kucero.Controllers.Reconcile.Approval.{fresh}
use kucero.Controllers.Reconcile.Ready.{IsKept, reconcile-EndsWell}
use kucero.Controllers.Sequence.Laws.{EndsWell-parts}
use kucero.Controllers.Server.{Objects, Store, IsStore, Answers, env_of, serve}
use kucero.Controllers.Server.Effect.{serve-IsKeyed}
use kucero.Controllers.Server.Keys.{IsKeyed}
use kucero.Controllers.Server.Lifecycle.{
  MayIssue, Lifecycle, serve-Lifecycle, serve_all, serve_all-keeps,
}

-- A step leaves the request alone or issues a certificate.
pub Lifecycle-cases :
    {a : Answers} {name : String} {sg : Signer} (c c' : CertificateSigningRequest)
    → Lifecycle a name sg c c'
    → (c' ≡ c) ⊎ ((cert : Text) × (c'.certificate ≡ some cert) × MayIssue a name sg c cert)
unfolding append_approval_condition
Lifecycle-cases c c' (Lifecycle.stays _) = inl refl
Lifecycle-cases c c' (Lifecycle.issues _ cert may) = inr (cert, refl, may)
Lifecycle-cases c c' (Lifecycle.issues_and_approves _ cert may) = inr (cert, refl, may)

module _ (w : Store) (parsers : Parsers) (ttl : Duration) where
  serve-IsKept :
      (a : Answers) (name : String) (objects : Objects) (sg : Signer)
      → parsers ≡ a.tools.parsers
      → IsKept parsers ttl sg
      → IsKept parsers ttl (serve w a name (objects, sg)).1
  unfolding serve
  serve-IsKept a name objects sg same kept =
      let x = env_of w objects a in
      let r = reconcile x name (fresh sg) in
      let (_, kept') = EndsWell-parts x ttl r.0 r.1 (
        reconcile-EndsWell x ttl name (fresh sg)
          (subst (λ (p : Parsers). IsKept p ttl sg) same kept)) in
      subst (λ (p : Parsers). IsKept p ttl r.1.signer) (sym same) kept'

  module _ (P : Answers → Type 0) (good : IsStore w) where
    -- One of the calls issued the certificate, with the signer of that moment, which is ready.
    pub serve_all-MayIssue :
        (calls : List (Answers × String)) (objects : Objects) (sg : Signer) (n : String)
        (c c' : CertificateSigningRequest) (cert : Text)
        → All (λ call. (parsers ≡ call.0.tools.parsers) × P call.0) calls
        → IsKeyed objects
        → IsKept parsers ttl sg
        → objects n ≡ some c
        → c.certificate ≡ none
        → (serve_all w calls (objects, sg)).0 n ≡ some c'
        → c'.certificate ≡ some cert
        → (before after : List (Answers × String)) × (a : Answers) × (name : String) × (calls
            ≡ before ++ ((a, name) ∷ after))
          × P a
          × (parsers ≡ a.tools.parsers)
          × IsKept parsers ttl (serve_all w before (objects, sg)).1
          × MayIssue a name (serve_all w before (objects, sg)).1 c cert
    unfolding serve_all
    serve_all-MayIssue [] objects sg n c c' cert each keyed kept here unsigned later signed =
        absurd cc
    serve_all-MayIssue ((a, name) ∷ calls) objects sg n c c' cert ((same, p), each) keyed kept here
          unsigned later signed =
        let s = serve w a name (objects, sg) in
        let (c₁, now, moved) = serve-Lifecycle w good a name objects sg keyed n c here in
        let keyed' = serve-IsKeyed w a name objects sg good keyed in
        elim (Lifecycle-cases c c₁ moved) [
          | inl still ↦
              let (before, after, b, m, parts, p', same', kept', may) =
                serve_all-MayIssue calls s.0 s.1 n c c' cert each keyed'
                  (serve-IsKept a name objects sg same kept) (now ∙ ap some still) unsigned later
                  signed in
              (
                (a, name) ∷ before,
                after,
                b,
                m,
                ap (λ l. (a, name) ∷ l) parts,
                p',
                same',
                kept',
                may,
              )
          | inr (cert₁, done, may) ↦
              let kept_c = serve_all-keeps w good calls s.0 s.1 n c₁ cert₁ keyed' now done in
              let e : cert₁ ≡ cert = cc in
              (
                [],
                calls,
                a,
                name,
                refl,
                p,
                same,
                kept,
                subst (λ (t : Text). MayIssue a name sg c t) e may,
              )
        ]
