-- ===== src/Authority/Sign/Exact.antt =====
-- Exactly which certificates `CertificateAuthority.Sign` of pkg/pki/authority/authority.go returns
-- under a `PermissiveSigningPolicy`.
use kucero.Base.{
  ℕ, Text, ◌≡◌, ◌↔◌, inl, inr, true, false, none, List, [], ◌≤ℤ◌, ◌<ℤ◌, ◌+ℤ◌, ◌-ℤ◌, arith,
  Bool-cases,
}
use kucero.Api.Time.{Time, add, negate, before}
use kucero.Api.Error.{ok, Result-cases}
use kucero.Api.X509.{Certificate, CertificateRequest}
use kucero.Authority.Usages.{key_usages_from_strings}
use kucero.Authority.Policy.{PermissiveSigningPolicy, permissive, apply, applied}
use kucero.Authority.Sign.{CertificateAuthority, Crypto, get_now, template, capped, sign}
use kucero.Authority.Sign.Laws.{add-negate}

-- The earlier of two times.
pub data IsEarlier (t u : Time) : Time → Type 0 where
  first : t ≤ℤ u → IsEarlier t u t
  second : u ≤ℤ t → IsEarlier t u u

earlier_of : (t u : Time) → (e : Time) × IsEarlier t u e
earlier_of t u = elim (Bool-cases (before t u)) [
  | inl less ↦ (t, first (ground arith))
  | inr not_less ↦ (u, second (ground arith))
]

module _ (range : List ℕ → List ℕ) (x : Crypto) (ca : CertificateAuthority) (wall : Time)
    (p : PermissiveSigningPolicy) where
  -- The start of a certificate that is signed now.
  abbrev pub start : Time
  start = get_now ca wall -ℤ ca.backdate

  -- What is encoded for a request: a certificate for its names and its key, from `start` to `ends`.
  abbrev pub issued : CertificateRequest → ℕ → ℕ × List ℕ → Time → Certificate
  issued cr serial found ends = record {
    serial_number = serial;
    subject = cr.subject;
    dns_names = cr.dns_names;
    ip_addresses = cr.ip_addresses;
    email_addresses = cr.email_addresses;
    uris = cr.uris;
    public_key_algorithm = cr.public_key_algorithm;
    public_key = cr.public_key;
    extensions = [];
    extra_extensions = [];
    not_before = start;
    not_after = ends;
    key_usage = found.0;
    ext_key_usage = found.1;
    basic_constraints_valid = true;
    is_ca = false;
  }

  -- The request parses and is rightly signed, a serial number is drawn, the usages of the policy are
  -- known, the authority is valid at the start and now, and the encoder takes the certificate, which
  -- ends with the policy's TTL or with the authority, whichever is earlier.
  pub record IsGranted (cr_der out : Text) (cr : CertificateRequest) (serial : ℕ)
      (found : ℕ × List ℕ) (ends : Time) : Type 0 where
    pub begins : start <ℤ ca.certificate.not_after
    pub parsed : x.parse_certificate_request cr_der ≡ ok cr
    pub signature : x.check_signature cr ≡ none
    pub drawn : x.random_serial ≡ ok serial
    pub usages : key_usages_from_strings range p.usages ≡ ok found
    pub earlier : IsEarlier (start +ℤ p.ttl) ca.certificate.not_after ends
    pub valid : get_now ca wall <ℤ ca.certificate.not_after
    pub encoded :
        x.create_certificate
          (issued cr serial found ends)
          ca.certificate
          cr.public_key
          ca.private_key
        ≡ ok out

  -- The certificate as the code makes it.
  abbrev made : CertificateRequest → ℕ → ℕ × List ℕ → Certificate
  made cr serial found =
      capped ca.certificate
        (applied range p found (template cr serial (add (get_now ca wall) (negate ca.backdate))))

  made-issued :
      (cr : CertificateRequest) (serial : ℕ) (found : ℕ × List ℕ) (ends : Time)
      → IsEarlier (start +ℤ p.ttl) ca.certificate.not_after ends
      → made cr serial found ≡ issued cr serial found ends
  unfolding capped template
  made-issued cr serial found ends (first low) =
      ground (arith, add-negate (get_now ca wall) ca.backdate)
  made-issued cr serial found ends (second low) =
      ground (arith, add-negate (get_now ca wall) ca.backdate)

  granted :
      (cr_der out : Text)
      → sign x ca wall cr_der (permissive range p) ≡ ok out
      → (cr : CertificateRequest) × (serial : ℕ) × (found : ℕ × List ℕ) × (ends : Time) × IsGranted
          cr_der out cr serial found ends
  unfolding sign apply
  granted cr_der out h = elim (Result-cases (x.parse_certificate_request cr_der)) [
    | inr (e, bad) ↦ absurd (ground arith)
    | inl (cr, parsed) ↦ elim (Result-cases x.random_serial) [
      | inr (e, bad) ↦ absurd (ground arith)
      | inl (serial, drawn) ↦ elim (Result-cases (key_usages_from_strings range p.usages)) [
        | inr (e, bad) ↦ absurd (ground arith)
        | inl (found, u) ↦
            let (ends, earlier) = earlier_of (start +ℤ p.ttl) ca.certificate.not_after in
            let same = made-issued cr serial found ends earlier in
            let from = add-negate (get_now ca wall) ca.backdate in
            let encoded : x.create_certificate (made cr serial found) ca.certificate cr.public_key
                  ca.private_key
                ≡ ok out =
              ground arith in
            (
              cr,
              serial,
              found,
              ends,
              record {
                begins = ground (arith, from);
                parsed = parsed;
                signature = ground arith;
                drawn = drawn;
                usages = u;
                earlier = earlier;
                valid = ground arith;
                encoded = rw same at encoded;
              },
            )
      ]
    ]
  ]

  returned :
      (cr_der out : Text) (cr : CertificateRequest) (serial : ℕ) (found : ℕ × List ℕ) (ends : Time)
      → IsGranted cr_der out cr serial found ends
      → sign x ca wall cr_der (permissive range p) ≡ ok out
  unfolding sign apply
  returned cr_der out cr serial found ends g =
      let same = made-issued cr serial found ends g.earlier in
      let from = add-negate (get_now ca wall) ca.backdate in
      let encoded : x.create_certificate (made cr serial found) ca.certificate cr.public_key
            ca.private_key
          ≡ ok out =
        rw same g.encoded in
      ground (arith, from, g.begins, g.parsed, g.signature, g.drawn, g.usages, g.valid, encoded)

  -- `Sign` returns a certificate exactly if the request parses and is rightly signed, a serial number
  -- is drawn, the usages of the policy are known, the authority is valid both at the start of the
  -- certificate and now, and the encoder takes the certificate that is described field by field by
  -- `issued`: the names and the key of the request, no extension, no right to sign, valid from
  -- `Backdate` before now up to the earlier of the policy's TTL and the end of the authority. It then
  -- returns what the encoder made of that.
  pub sign_iff :
      (cr_der out : Text)
      → (sign x ca wall cr_der (permissive range p) ≡ ok out) ↔ (
          (cr : CertificateRequest) × (serial : ℕ) × (found : ℕ × List ℕ) × (ends : Time)
          × IsGranted cr_der out cr serial found ends)
  sign_iff cr_der out = (
    granted cr_der out,
    λ (cr, serial, found, ends, g). returned cr_der out cr serial found ends g,
  )
