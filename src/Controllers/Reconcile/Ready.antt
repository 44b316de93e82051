-- ===== src/Controllers/Reconcile/Ready.antt =====
-- A signer over one call of `Reconcile` of controllers/certificatesigningrequest_controller.go.
use kucero.Base.{
  String, Text, ◌≡◌, ◌∙◌, inl, inr, true, false, none, List, [], ◌∷◌, arith, Option-cases, Bool,
  Bool-cases,
}
use kucero.Api.Time.{Duration}
use kucero.Api.Error.{wrap, Result, ok, err}
use kucero.Api.Csr.{CertificateSigningRequest}
use kucero.Api.X509.{CertificateRequest}
use kucero.Cert.Parser.{parse_csr}
use kucero.Signer.Sign.{Signer}
use kucero.Signer.CaProvider.{Parsers}
use kucero.Signer.Sign.Laws.{sign-IsReady}
use kucero.Signer.CaProvider.Laws.{IsReady}
use kucero.Controllers.Reconcile.{
  event, Env, State, Outcome, returned, panicked, is_zero, reconcile, CsrRecognizer, recognizers,
  try_all, Round, proceed, stop, patch_csr, sign_csr, fail, decided, try_recognizer, dispatch,
  empty_csr, act,
}
use kucero.Controllers.Reconcile.Approval.{Got-cases}

-- A signer that is ready and has the default duration `ttl`.
abbrev pub IsKept : Parsers → Duration → Signer → Type 0
IsKept parsers ttl sg = IsReady parsers sg.ca_provider × (sg.cert_ttl ≡ ttl)

module _ (x : Env) (ttl : Duration) where
  -- The round did not panic, and the signer is ready after it.
  abbrev IsGood : Round → Type 0
  IsGood (proceed csr s) = IsKept x.tools.parsers ttl s.signer
  IsGood (stop (returned e) s) = IsKept x.tools.parsers ttl s.signer
  IsGood (stop panicked s) = ⊥

  abbrev pub EndsWell : Outcome × State → Type 0
  EndsWell (returned e, s) = IsKept x.tools.parsers ttl s.signer
  EndsWell (panicked, s) = ⊥

  patch_csr-IsGood :
      (csr : CertificateSigningRequest) (cert : Text) (r : CsrRecognizer) (s : State)
      → IsKept x.tools.parsers ttl s.signer
      → IsGood (patch_csr x csr cert r s)
  unfolding patch_csr
  patch_csr-IsGood csr cert r s ready = ground arith

  signed-IsGood :
      (csr : CertificateSigningRequest) (r : CsrRecognizer) (s : State) (signed : Result Text)
      → IsKept x.tools.parsers ttl s.signer
      → IsGood (elim signed [
        | err e ↦ fail (wrap "error auto signing csr: %v" e) s
        | ok cert ↦ patch_csr x csr cert r s
      ])
  signed-IsGood csr r s (err e) ready = ready
  signed-IsGood csr r s (ok cert) ready = patch_csr-IsGood csr cert r s ready

  sign_csr-IsGood :
      (csr : CertificateSigningRequest) (cr : CertificateRequest) (r : CsrRecognizer) (s : State)
      → IsKept x.tools.parsers ttl s.signer
      → IsGood (sign_csr x csr cr r s)
  unfolding sign_csr
  sign_csr-IsGood csr cr r s (ready, same) =
      let (signed, signer', e, kept, same') =
        sign-IsReady x.tools s.signer x.wall cr csr.spec x.first_read x.second_read ready in
      rw (e, IsGood, sign_csr)
        (signed-IsGood csr r (record s { signer = signer' }) signed (kept, same' ∙ same))

  decided-IsGood :
      (csr : CertificateSigningRequest) (cr : CertificateRequest) (r : CsrRecognizer)
      (answer : Result Bool) (s : State)
      → IsKept x.tools.parsers ttl s.signer
      → IsGood (decided x csr cr r (answer, s))
  decided-IsGood csr cr r (err e) s ready = ready
  decided-IsGood csr cr r (ok true) s ready = sign_csr-IsGood csr cr r s ready
  decided-IsGood csr cr r (ok false) s ready = ready

  try_recognizer-IsGood :
      (csr : CertificateSigningRequest) (cr : CertificateRequest) (r : CsrRecognizer) (s : State)
      → IsKept x.tools.parsers ttl s.signer
      → IsGood (try_recognizer x csr cr r s)
  unfolding try_recognizer
  try_recognizer-IsGood csr cr r s ready = elim (Bool-cases (r.recognize csr cr)) [
    | inl mine ↦ rw mine (decided-IsGood csr cr r _ _ ready)
    | inr other ↦ rw other ready
  ]

  round-EndsWell :
      (rs : List CsrRecognizer) (cr : CertificateRequest)
      → ((csr : CertificateSigningRequest) (s : State)
          → IsKept x.tools.parsers ttl s.signer
          → EndsWell (try_all x rs csr cr s))
      → (round : Round) → IsGood round
      → EndsWell (elim round [ proceed csr' s' ↦ try_all x rs csr' cr s' | stop o s' ↦ (o, s') ])
  round-EndsWell rs cr rest (proceed csr s) good = rest csr s good
  round-EndsWell rs cr rest (stop (returned e) s) good = good
  round-EndsWell rs cr rest (stop panicked s) good = good

  try_all-EndsWell :
      (rs : List CsrRecognizer) (csr : CertificateSigningRequest) (cr : CertificateRequest)
      (s : State)
      → IsKept x.tools.parsers ttl s.signer
      → EndsWell (try_all x rs csr cr s)
  unfolding try_all
  try_all-EndsWell [] csr cr s ready = ready
  try_all-EndsWell (r ∷ rs) csr cr s ready =
      round-EndsWell rs cr (λ csr' s' h. try_all-EndsWell rs csr' cr s' h) _
        (try_recognizer-IsGood csr cr r s ready)

  parsed-EndsWell :
      (csr : CertificateSigningRequest) (parsed : Result CertificateRequest) (s : State)
      → IsKept x.tools.parsers ttl s.signer
      → EndsWell (elim parsed [
        | err e ↦ (
          returned none,
          act (event "Warning" "SigningFailed" "Unable to parse the CSR request") s,
        )
        | ok x509cr ↦ try_all x recognizers csr x509cr s
      ])
  parsed-EndsWell csr (err e) s ready = ready
  parsed-EndsWell csr (ok cr) s ready = try_all-EndsWell recognizers csr cr s ready

  dispatch-EndsWell :
      (csr : CertificateSigningRequest) (s : State)
      → IsKept x.tools.parsers ttl s.signer
      → EndsWell (dispatch x csr s)
  unfolding dispatch
  dispatch-EndsWell csr s ready = elim (Bool-cases (is_zero csr.deletion_timestamp)) [
    | inr gone ↦ rw (gone, EndsWell) ready
    | inl live ↦
        rw (live, EndsWell)
          (elim (Option-cases csr.certificate) [
            | inr (cert, signed) ↦ rw (signed, EndsWell) ready
            | inl unsigned ↦
                rw (unsigned, EndsWell)
                  (parsed-EndsWell csr (parse_csr x.decoders csr.spec.request) s ready)
          ])
  ]

  -- A signer that is ready stays so and keeps its default duration, and `Reconcile` does not panic,
  -- whatever the server answers and whatever became of the files.
  pub reconcile-EndsWell :
      (name : String) (s : State)
      → IsKept x.tools.parsers ttl s.signer
      → EndsWell (reconcile x name s)
  unfolding reconcile
  reconcile-EndsWell name s ready = elim (Got-cases (x.get_csr name)) [
    | inl (csr, got) ↦ rw (got, EndsWell, reconcile) (dispatch-EndsWell csr _ ready)
    | inr (inl missing) ↦ rw (missing, EndsWell, reconcile) (dispatch-EndsWell empty_csr _ ready)
    | inr (inr (e, bad)) ↦ rw (bad, EndsWell, reconcile) ready
  ]
