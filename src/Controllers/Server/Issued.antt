-- ===== src/Controllers/Server/Issued.antt =====
-- The certificates that controllers/certificatesigningrequest_controller.go puts on the server, as
-- the work of all its parts: the parser, the recognizer, the review, the signer, and the authority.
mod Tests
use text.Mathlib.Text.{starts_with}
use kucero.Base.{
  ℕ, String, Text, ◌≡◌, refl, sym, ap, ◌∙◌, ◌⊎◌, inl, inr, true, false, Option, none, some, List,
  [], ◌∷◌, ◌++◌, All, string_eq, arith, ◌≤ℤ◌, ◌+ℤ◌, ◌-ℤ◌, Option-cases, ℤ, int_laws,
}
use mathlib.Core.Path.{subst}
use kucero.Api.Time.{Duration, minutes}
use kucero.Api.Error.{ok}
use kucero.Api.Csr.{CertificateSigningRequest}
use kucero.Api.X509.{Certificate, CertificateRequest}
use kucero.Cert.Parser.{parse_csr}
use kucero.Authority.Usages.{key_usages_from_strings}
use kucero.Authority.Sign.{CertificateAuthority}
use kucero.Signer.CaProvider.{Parsers}
use kucero.Signer.CaProvider.Laws.{content_of, IsReady}
use kucero.Signer.Sign.{Signer, duration, sign}
use kucero.Signer.Sign.Laws.{sign-IsHandedOut, duration_bounds}
use kucero.Controllers.Helper.Laws.{IsServing, IsServerUsage}
use kucero.Controllers.Reconcile.{review_of}
use kucero.Controllers.Reconcile.Approval.{permission}
use kucero.Controllers.Reconcile.Ready.{IsKept}
use kucero.Controllers.Server.{Objects, Store, IsStore, Answers}
use kucero.Controllers.Server.Keys.{IsKeyed}
use kucero.Controllers.Server.Lifecycle.{MayIssue, serve_all}
use kucero.Controllers.Server.Origin.{serve_all-MayIssue}

-- The controller and the authority parse requests with the same function of crypto/x509, and the
-- request that it returns keeps the bytes that it read.
pub record IsX509 (a : Answers) : Type 0 where
  pub parses_alike :
      (der : Text)
      → a.decoders.parse_certificate_request der ≡ a.tools.crypto.parse_certificate_request der
  pub keeps_raw :
      (der : Text) (cr : CertificateRequest)
      → a.tools.crypto.parse_certificate_request der ≡ ok cr
      → cr.raw ≡ der

-- `cert` is a serving certificate for the node that made the request `c`.
pub record IsNodeCertificate (a : Answers) (ttl : Duration) (c : CertificateSigningRequest)
    (cert : Text) : Type 0 where
  pub authority : CertificateAuthority
  pub request : CertificateRequest
  pub tmpl : Certificate
  pub der : Text
  pub current : (content_of authority ≡ a.first_read) ⊎ (content_of authority ≡ a.second_read)
  pub parsed : parse_csr a.decoders c.spec.request ≡ ok request
  pub verified : a.tools.crypto.check_signature request ≡ none
  pub reviewed : a.create_review (review_of c permission) ≡ ok true
  pub own_name : tmpl.subject.common_name ≡ c.spec.username
  pub node_name : starts_with c.spec.username "system:node:" ≡ true
  pub organization : tmpl.subject.organization ≡ "system:nodes" ∷ []
  pub own_key : tmpl.public_key ≡ request.public_key
  pub dns_names : tmpl.dns_names ≡ request.dns_names
  pub ip_addresses : tmpl.ip_addresses ≡ request.ip_addresses
  pub server_usages : All IsServerUsage c.spec.usages
  pub usages :
      key_usages_from_strings a.tools.range c.spec.usages ≡ ok (tmpl.key_usage, tmpl.ext_key_usage)
  pub no_ca : tmpl.is_ca ≡ false
  pub starts : tmpl.not_before ≡ a.wall -ℤ minutes 5
  pub within_ttl : tmpl.not_after ≤ℤ tmpl.not_before +ℤ ttl
  pub within_ca : tmpl.not_after ≤ℤ authority.certificate.not_after
  pub encoded :
      a.tools.crypto.create_certificate tmpl authority.certificate request.public_key
        authority.private_key
      ≡ ok der
  pub pem : cert ≡ a.tools.encode_to_memory "CERTIFICATE" der

at_most : (end start short long : ℤ) → end ≤ℤ start +ℤ short → short ≤ℤ long → end ≤ℤ start +ℤ long
at_most end start short long p q = omega int_laws

parse_csr-raw :
    (a : Answers) (pem : Text) (cr : CertificateRequest)
    → IsX509 a
    → parse_csr a.decoders pem ≡ ok cr
    → a.tools.crypto.parse_certificate_request cr.raw ≡ ok cr
unfolding parse_csr
parse_csr-raw a pem cr x parsed = elim (Option-cases (a.decoders.decode pem)) [
  | inl nothing ↦ absurd (ground arith)
  | inr ((kind, der), some_block) ↦
      let read : a.decoders.parse_certificate_request der ≡ ok cr = ground arith in
      let read' : a.tools.crypto.parse_certificate_request der ≡ ok cr =
        sym (x.parses_alike der) ∙ read in
      ap (λ d. a.tools.crypto.parse_certificate_request d) (x.keeps_raw der cr read') ∙ read'
]

module _ (a : Answers) (x509 : IsX509 a) (parsers : Parsers) (ttl : Duration) where
  MayIssue-IsNodeCertificate :
      (name : String) (sg : Signer) (c : CertificateSigningRequest) (cert : Text)
      → parsers ≡ a.tools.parsers
      → IsKept parsers ttl sg
      → minutes 10 ≤ℤ ttl
      → MayIssue a name sg c cert
      → IsNodeCertificate a ttl c cert
  MayIssue-IsNodeCertificate name sg c cert same (ready, of_ttl) long may =
      let (sg', signed) = may.signed in
      let (ca, current, cr, tmpl, der, handed) =
        sign-IsHandedOut a.tools sg a.wall may.request c.spec a.first_read a.second_read
          (rw same at ready) cert sg' signed in
      let again = parse_csr-raw a c.spec.request may.request x509 may.parsed in
      let one : cr ≡ may.request = cc (handed.parsed, again) in
      let i = handed.issued in
      let low : minutes 10 ≤ℤ sg.cert_ttl = rw of_ttl long in
      let (_, bound) = duration_bounds a.tools sg c.spec.expiration_seconds low in
      let short : duration a.tools sg c.spec.expiration_seconds ≤ℤ ttl =
        subst (λ (t : Duration). duration a.tools sg c.spec.expiration_seconds ≤ℤ t) of_ttl bound in
      record {
        authority = ca;
        request = may.request;
        tmpl = tmpl;
        der = der;
        current = current;
        parsed = may.parsed;
        verified =
            subst (λ (r : CertificateRequest). a.tools.crypto.check_signature r ≡ none) one
              handed.signature;
        reviewed = may.allowed;
        own_name =
            ap (λ s. s.common_name) i.subject
            ∙ ap (λ (r : CertificateRequest). r.subject.common_name) one
            ∙ sym may.serving.own_name;
        node_name = rw may.serving.own_name may.serving.node_name;
        organization =
            ap (λ s. s.organization) i.subject
            ∙ ap (λ (r : CertificateRequest). r.subject.organization) one
            ∙ may.serving.organization;
        own_key = i.public_key ∙ ap (λ (r : CertificateRequest). r.public_key) one;
        dns_names = i.dns_names ∙ ap (λ (r : CertificateRequest). r.dns_names) one;
        ip_addresses = i.ip_addresses ∙ ap (λ (r : CertificateRequest). r.ip_addresses) one;
        server_usages = may.serving.server_usages;
        usages = i.usages;
        no_ca = i.no_ca;
        starts = handed.starts;
        within_ttl = at_most _ _ _ _ i.within_ttl short;
        within_ca = i.within_ca;
        encoded =
            subst
              (λ (r : CertificateRequest).
                a.tools.crypto.create_certificate tmpl ca.certificate r.public_key ca.private_key
                ≡ ok der)
              one handed.encoded;
        pem = handed.pem;
      }

-- On a server that behaves as documented, with every object under its own name, the controller is
-- called any number of times, for any requests, with any refusals, and with any files, as long as
-- they are read by the same parsers; its signer is ready and has a default of at least ten minutes.
-- If a request without a certificate has one in the end, then that is a serving certificate for the
-- node that made the request: in one of the calls it was reviewed and found to be allowed, and the
-- authority of the files of that call issued the certificate to the user of the request, whose name
-- is one of a node, with the key that signed the request and for the default duration at most.
pub serve_all-IsNodeCertificate :
    (w : Store) (parsers : Parsers) (calls : List (Answers × String)) (objects : Objects)
    (sg : Signer) (n : String) (c c' : CertificateSigningRequest) (cert : Text)
    → IsStore w
    → All (λ call. (parsers ≡ call.0.tools.parsers) × IsX509 call.0) calls
    → IsKeyed objects
    → IsReady parsers sg.ca_provider
    → minutes 10 ≤ℤ sg.cert_ttl
    → objects n ≡ some c
    → c.certificate ≡ none
    → (serve_all w calls (objects, sg)).0 n ≡ some c'
    → c'.certificate ≡ some cert
    → (before after : List (Answers × String)) × (a : Answers) × (name : String) × (calls
        ≡ before ++ ((a, name) ∷ after))
      × IsNodeCertificate a sg.cert_ttl c cert
serve_all-IsNodeCertificate w parsers calls objects sg n c c' cert good each keyed ready long here
      unsigned later signed =
    let (before, after, a, name, parts, x509, same, kept, may) =
      serve_all-MayIssue w parsers sg.cert_ttl IsX509 good calls objects sg n c c' cert each keyed
        (ready, refl) here unsigned later signed in
    (
      before,
      after,
      a,
      name,
      parts,
      MayIssue-IsNodeCertificate a x509 parsers sg.cert_ttl name _ c cert same kept long may,
    )
