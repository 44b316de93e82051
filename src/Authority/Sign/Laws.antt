-- ===== src/Authority/Sign/Laws.antt =====
-- What an issued certificate holds, when the authority refuses, and when it does not.
use kucero.Base.{
  ℕ, Text, ◌≡◌, ◌⊎◌, inl, inr, false, none, List, [], ◌≤ℤ◌, ◌<ℤ◌, ◌+ℤ◌, ◌-ℤ◌, int_laws, arith,
}
use kucero.Api.Time.{Time, add, negate}
use kucero.Api.Error.{Error, ok, err, Result-cases}
use kucero.Api.X509.{Certificate, CertificateRequest}
use kucero.Authority.Usages.{key_usages_from_strings}
use kucero.Authority.Policy.{PermissiveSigningPolicy, permissive, apply, applied}
use kucero.Authority.Sign.{CertificateAuthority, Crypto, get_now, template, capped, sign}

pub add-negate : (t d : Time) → add t (negate d) ≡ t -ℤ d
add-negate t d = omega int_laws

module _ (range : List ℕ → List ℕ) (x : Crypto) (ca : CertificateAuthority) (wall : Time) where
  -- The certificate `tmpl` answers the request `cr`: it has the request's names and key, the
  -- policy's usages, no extension and no right to sign, and it is valid from `Backdate` before now
  -- for the policy's TTL, or up to the end of the authority's own validity if that is earlier.
  pub record IsIssued (p : PermissiveSigningPolicy) (cr : CertificateRequest) (tmpl : Certificate)
      : Type 0 where
    pub subject : tmpl.subject ≡ cr.subject
    pub dns_names : tmpl.dns_names ≡ cr.dns_names
    pub ip_addresses : tmpl.ip_addresses ≡ cr.ip_addresses
    pub public_key : tmpl.public_key ≡ cr.public_key
    pub usages : key_usages_from_strings range p.usages ≡ ok (tmpl.key_usage, tmpl.ext_key_usage)
    pub no_extensions : (tmpl.extensions ≡ []) × (tmpl.extra_extensions ≡ [])
    pub no_ca : tmpl.is_ca ≡ false
    pub starts : tmpl.not_before ≡ get_now ca wall -ℤ ca.backdate
    pub within_ttl : tmpl.not_after ≤ℤ tmpl.not_before +ℤ p.ttl
    pub within_ca : tmpl.not_after ≤ℤ ca.certificate.not_after
    pub ends :
        (tmpl.not_after ≡ tmpl.not_before +ℤ p.ttl) ⊎ (tmpl.not_after ≡ ca.certificate.not_after)
    pub authority_valid : get_now ca wall <ℤ ca.certificate.not_after

  capped-IsIssued :
      (p : PermissiveSigningPolicy) (cr : CertificateRequest) (serial : ℕ) (found : ℕ × List ℕ)
      → key_usages_from_strings range p.usages ≡ ok found
      → get_now ca wall <ℤ ca.certificate.not_after
      → IsIssued p cr (
          capped ca.certificate (
            applied range p found
              (template cr serial (add (get_now ca wall) (negate ca.backdate)))))
  unfolding capped template
  capped-IsIssued p cr serial (k, e) u valid =
      ground (arith, add-negate (get_now ca wall) ca.backdate)

  module _ (p : PermissiveSigningPolicy) (cr_der : Text) where
    -- Every certificate that leaves `Sign` was encoded from a template that answers the parsed
    -- request, whose signature was checked, with the request's key and under the authority's key.
    pub sign-IsIssued :
        (out : Text)
        → sign x ca wall cr_der (permissive range p) ≡ ok out
        → (cr : CertificateRequest) × (tmpl : Certificate) × (x.parse_certificate_request cr_der
            ≡ ok cr)
          × (x.check_signature cr ≡ none)
          × (x.create_certificate tmpl ca.certificate cr.public_key ca.private_key ≡ ok out)
          × IsIssued p cr tmpl
    unfolding sign apply
    sign-IsIssued out h = elim (Result-cases (x.parse_certificate_request cr_der)) [
      | inr (e, bad) ↦ absurd (ground arith)
      | inl (cr, parsed) ↦ elim (Result-cases x.random_serial) [
        | inr (e, bad) ↦ absurd (ground arith)
        | inl (serial, drawn) ↦ elim (Result-cases (key_usages_from_strings range p.usages)) [
          | inr (e, bad) ↦ absurd (ground arith)
          | inl (found, u) ↦ (
            cr,
            capped ca.certificate (
                applied range p found
                  (template cr serial (add (get_now ca wall) (negate ca.backdate)))),
            parsed,
            ground arith,
            ground arith,
            capped-IsIssued p cr serial found u (ground arith),
          )
        ]
      ]
    ]

    -- An authority whose own certificate has ended signs nothing.
    pub sign_expired :
        ca.certificate.not_after ≤ℤ get_now ca wall
        → (e : Error) × (sign x ca wall cr_der (permissive range p) ≡ err e)
    sign_expired h = elim (Result-cases (sign x ca wall cr_der (permissive range p))) [
      | inr refused ↦ refused
      | inl (out, issued) ↦ absurd (omega (arith, (sign-IsIssued out issued).5.authority_valid))
    ]
