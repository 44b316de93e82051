-- ===== src/Signer/Sign/Laws.antt =====
-- How long a certificate of the signer lasts, and what the signer hands out.
use kucero.Base.{
  ℤ, Text, ◌≡◌, refl, ◌↔◌, ◌⊎◌, inl, inr, Option, none, some, ◌≤ℤ◌, ◌<ℤ◌, ◌-ℤ◌, arith,
}
use kucero.Api.Time.{Time, minutes}
use kucero.Api.Error.{Error, Result, ok, Result-cases}
use kucero.Api.X509.{Certificate, CertificateRequest}
use kucero.Api.Csr.{Spec}
use kucero.Authority.Policy.{PermissiveSigningPolicy, permissive}
use kucero.Authority.Sign.{CertificateAuthority, sign as authority_sign}
use kucero.Authority.Sign.Laws.{IsIssued, sign-IsIssued}
use kucero.Signer.CaProvider.{CaProvider, Content, current_ca}
use kucero.Signer.CaProvider.Laws.{
  content_of, IsReady, IsAnswer, current_ca-IsAnswer, IsLoaded-backdate,
}
use kucero.Signer.Sign.{Signer, Tools, duration, sign_with, sign}

module _ (x : Tools) (s : Signer) where
  -- With a default of at least ten minutes, whatever was asked for, the duration lies between ten
  -- minutes and the default.
  pub duration_bounds :
      (expiration : Option ℤ)
      → minutes 10 ≤ℤ s.cert_ttl
      → (minutes 10 ≤ℤ duration x s expiration) × (duration x s expiration ≤ℤ s.cert_ttl)
  unfolding duration
  duration_bounds none h = (h, omega arith)
  duration_bounds (some e) h = ground arith

  -- A request between ten minutes and the default is honoured.
  pub duration_honoured :
      (seconds : ℤ)
      → minutes 10 ≤ℤ x.expiration_seconds_to_duration seconds
      → x.expiration_seconds_to_duration seconds ≤ℤ s.cert_ttl
      → duration x s (some seconds) ≡ x.expiration_seconds_to_duration seconds
  unfolding duration
  duration_honoured seconds low high = ground arith

  -- A certificate is asked of the authority for longer than the default exactly if some duration was
  -- requested, it is no more than the default, and the default is below ten minutes.
  pub duration_exceeds_iff :
      (expiration : Option ℤ)
      → (s.cert_ttl <ℤ duration x s expiration) ↔ (
          (seconds : ℤ) × (expiration ≡ some seconds)
          × (x.expiration_seconds_to_duration seconds ≤ℤ s.cert_ttl)
          × (s.cert_ttl <ℤ minutes 10))
  unfolding duration
  duration_exceeds_iff none = (λ more. absurd (omega arith), λ (seconds, given, _, _). absurd (cc))
  duration_exceeds_iff (some e) = (
    λ more. (e, refl, ground arith, ground arith),
    λ (seconds, given, asked, short).
        let same : e ≡ seconds = cc in let asked' = rw (← same) at asked in ground arith,
  )

-- The policy with which the signer calls the authority.
abbrev pub policy_of : Tools → Signer → Spec → PermissiveSigningPolicy
policy_of x s spec = record { ttl = duration x s spec.expiration_seconds; usages = spec.usages }

module _ (x : Tools) (s : Signer) (wall : Time) (x509cr : CertificateRequest) (spec : Spec) where
  -- `out` is the PEM form of a certificate that `ca` issued from five minutes ago on.
  pub record IsHandedOut (ca : CertificateAuthority) (cr : CertificateRequest) (tmpl : Certificate)
      (der out : Text) : Type 0 where
    pub parsed : x.crypto.parse_certificate_request x509cr.raw ≡ ok cr
    pub signature : x.crypto.check_signature cr ≡ none
    pub encoded :
        x.crypto.create_certificate tmpl ca.certificate cr.public_key ca.private_key ≡ ok der
    pub pem : out ≡ x.encode_to_memory "CERTIFICATE" der
    pub issued : IsIssued x.range x.crypto ca wall (policy_of x s spec) cr tmpl
    pub starts : tmpl.not_before ≡ wall -ℤ minutes 5

  sign_with-IsHandedOut :
      (ca : CertificateAuthority)
      → (ca.backdate ≡ minutes 5) × (ca.now ≡ none)
      → (out : Text) → sign_with x s wall x509cr spec (ca, none) ≡ ok out
      → (cr : CertificateRequest) × (tmpl : Certificate) × (der : Text) × IsHandedOut ca cr tmpl der
          out
  unfolding sign_with
  sign_with-IsHandedOut ca set out h =
      elim (Result-cases
        (authority_sign x.crypto ca wall x509cr.raw (permissive x.range (policy_of x s spec)))) [
          | inr (e, bad) ↦ absurd (ground arith)
          | inl (der, signed) ↦
              let (cr, tmpl, parsed, signature, encoded, issued) =
                sign-IsIssued x.range x.crypto ca wall (policy_of x s spec) x509cr.raw der signed in
              (
                cr,
                tmpl,
                der,
                record {
                  parsed = parsed;
                  signature = signature;
                  encoded = encoded;
                  pem = ground arith;
                  issued = issued;
                  starts = ground (arith, issued.starts);
                },
              )
        ]

  module _ (c c' : Content) where
    -- A ready signer does not panic, and stays ready whether it signs or fails.
    pub sign-IsReady :
        IsReady x.parsers s.ca_provider
        → (r : Result Text) × (s' : Signer) × (sign x s c c' wall x509cr spec ≡ some (r, s'))
          × IsReady x.parsers s'.ca_provider
          × (s'.cert_ttl ≡ s.cert_ttl)
    unfolding sign IsReady
    sign-IsReady (old, holds, loaded) =
        let (ca, e, p, answers, kept, read, _) =
          current_ca-IsAnswer x.parsers c c' s.ca_provider old holds loaded in
        (
          sign_with x s wall x509cr spec (ca, e),
          record s { ca_provider = p },
          rw (answers, sign) refl,
          (ca, kept, read),
          refl,
        )

    sign-sign_with :
        (found : CertificateAuthority × Option Error) (p : CaProvider) (r : Result Text)
        (s' : Signer)
        → current_ca x.parsers c c' s.ca_provider ≡ some (found, p)
        → sign x s c c' wall x509cr spec ≡ some (r, s')
        → sign_with x s wall x509cr spec found ≡ r
    unfolding sign
    sign-sign_with found p r s' answers h = ground arith

    sign_with-fresh :
        (old ca : CertificateAuthority) (e : Option Error) (out : Text)
        → IsAnswer x.parsers old c c' ca e
        → sign_with x s wall x509cr spec (ca, e) ≡ ok out
        → (e ≡ none) × ((content_of ca ≡ c) ⊎ (content_of ca ≡ c'))
    unfolding sign_with
    sign_with-fresh old ca (some e) out answer h = absurd (cc)
    sign_with-fresh old ca none out (inl (e, bad, _)) h = absurd (cc)
    sign_with-fresh old ca none out (inr fresh) h = fresh

    -- What a ready signer hands out is the PEM form of a certificate issued under an authority that
    -- has the content of one of the two reads of the files: the parsed request's names and key, no
    -- extension, no right to sign, and valid from five minutes ago for the signer's duration at most.
    pub sign-IsHandedOut :
        IsReady x.parsers s.ca_provider
        → (out : Text) (s' : Signer) → sign x s c c' wall x509cr spec ≡ some (ok out, s')
        → (ca : CertificateAuthority) × ((content_of ca ≡ c) ⊎ (content_of ca ≡ c'))
          × (cr : CertificateRequest) × (tmpl : Certificate) × (der : Text) × IsHandedOut ca cr tmpl
              der out
    unfolding IsReady
    sign-IsHandedOut (old, holds, loaded) out s' h =
        let (ca, e, p, answers, kept, read, answer) =
          current_ca-IsAnswer x.parsers c c' s.ca_provider old holds loaded in
        let sent = sign-sign_with (ca, e) p (ok out) s' answers h in
        let (fine, fresh) = sign_with-fresh old ca e out answer sent in
        let set = IsLoaded-backdate x.parsers p.loader_name ca read in
        let (cr, tmpl, der, handed) = sign_with-IsHandedOut ca set out (rw fine at sent) in
        (ca, fresh, cr, tmpl, der, handed)
