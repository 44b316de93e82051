-- ===== src/Signer/CaProvider/Laws.antt =====
-- The authority in use by `caProvider` of pkg/pki/signer/ca_provider.go, and the files.
use kucero.Base.{
  String, ◌≡◌, ◌⊎◌, refl, inl, inr, Option, none, some, arith, Bool-cases, ◌==◌, ◌&&◌, text_eq,
}
use kucero.Api.Time.{minutes}
use kucero.Api.Error.{Error, Result, ok, err, Result-cases}
use kucero.Authority.Sign.{CertificateAuthority}
use kucero.Signer.CaProvider.{Content, Parsers, CaProvider, load_ca, new_ca_provider, current_ca}

abbrev pub content_of : CertificateAuthority → Content
content_of ca = record { cert_pem = ca.raw_cert; key_pem = ca.raw_key }

-- The authority was parsed from the bytes that it records.
unfoldable pub IsLoaded : Parsers → String → CertificateAuthority → Type 0
IsLoaded x name ca = load_ca x name (content_of ca) ≡ ok ca

-- The value is set, and was parsed from the bytes that it records.
unfoldable pub IsReady : Parsers → CaProvider → Type 0
IsReady x p = (ca : CertificateAuthority) × (p.ca_value ≡ some ca) × IsLoaded x p.loader_name ca

module _ (x : Parsers) (name : String) where
  pub load_ca-content :
      (c : Content) (ca : CertificateAuthority) → load_ca x name c ≡ ok ca → content_of ca ≡ c
  unfolding load_ca
  load_ca-content c ca h = ground arith

  load_ca-IsLoaded :
      (c : Content) (ca : CertificateAuthority) → load_ca x name c ≡ ok ca → IsLoaded x name ca
  unfolding IsLoaded
  load_ca-IsLoaded c ca h = rw (load_ca-content c ca h) h

module _ (x : Parsers) where
  -- A provider that `newCAProvider` returns holds an authority parsed from the bytes it records.
  pub new_ca_provider-IsReady :
      (ca_file : String) (loaded : Result String) (c : Content) (p : CaProvider)
      → new_ca_provider x ca_file loaded c ≡ ok p
      → IsReady x p
  unfolding new_ca_provider IsReady
  new_ca_provider-IsReady ca_file (err e) c p h = cc
  new_ca_provider-IsReady ca_file (ok name) c p h = elim (Result-cases (load_ca x name c)) [
    | inr (e, bad) ↦ absurd (ground arith)
    | inl (ca, read) ↦ (
      ca,
      ground arith,
      let e : p.loader_name ≡ name = ground arith in rw e (load_ca-IsLoaded x name c ca read),
    )
  ]

  -- What `currentCA` returns from a provider that holds `old`: the old authority with the error of
  -- a failed reload, or, with no error, an authority with the content of one of the two reads.
  abbrev pub IsAnswer :
      CertificateAuthority → Content → Content → CertificateAuthority → Option Error → Type 0
  IsAnswer old c c' ca e =
      ((failed : Error) × (e ≡ some failed) × (ca ≡ old))
      ⊎ ((e ≡ none) × ((content_of ca ≡ c) ⊎ (content_of ca ≡ c')))

  -- From a provider that holds an authority parsed from the bytes it records, `currentCA` does not
  -- panic, leaves the provider with the authority that it returns, parsed from the bytes it records
  -- too, and answers with the old authority and an error, or with fresh content and no error.
  pub current_ca-IsAnswer :
      (c c' : Content) (p : CaProvider) (old : CertificateAuthority)
      → p.ca_value ≡ some old
      → IsLoaded x p.loader_name old
      → (ca : CertificateAuthority) × (e : Option Error) × (p' : CaProvider) × (current_ca x c c' p
          ≡ some ((ca, e), p'))
        × (p'.ca_value ≡ some ca)
        × IsLoaded x p'.loader_name ca
        × IsAnswer old c c' ca e
  unfolding current_ca
  current_ca-IsAnswer c c' p old holds loaded =
      elim (Bool-cases (old.raw_cert == c.cert_pem && old.raw_key == c.key_pem)) [
        | inl same ↦ (old, none, p, ground arith, holds, loaded, inr (refl, inl (ground arith)))
        | inr stale ↦ elim (Result-cases (load_ca x p.loader_name c')) [
          | inr (e, bad) ↦ (old, some e, p, ground arith, holds, loaded, inl (e, refl, refl))
          | inl (ca, read) ↦ (
            ca,
            none,
            record p { ca_value = some ca },
            ground arith,
            refl,
            load_ca-IsLoaded x p.loader_name c' ca read,
            inr (refl, inr (load_ca-content x p.loader_name c' ca read)),
          )
        ]
      ]

-- An authority read from the files is backdated by five minutes and uses the clock of the machine.
pub IsLoaded-backdate :
    (x : Parsers) (name : String) (ca : CertificateAuthority)
    → IsLoaded x name ca
    → (ca.backdate ≡ minutes 5) × (ca.now ≡ none)
unfolding IsLoaded load_ca
IsLoaded-backdate x name ca h = ground arith
