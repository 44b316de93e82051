-- ===== src/Signer/CaProvider/Replay.antt =====
-- `currentCA` of pkg/pki/signer/ca_provider.go, called again and again, and an abstract provider that
-- knows only the content of the files.
use kucero.Base.{
  String, ◌≡◌, refl, inl, inr, Bool, true, false, Option, none, some, List, [], ◌∷◌, map, arith,
  Bool-cases, ◌==◌, ◌&&◌, text_eq, if◌then◌else◌, ap,
}
use kucero.Api.Error.{Error, Result, ok, err, Result-cases}
use kucero.Authority.Sign.{CertificateAuthority}
use kucero.Signer.CaProvider.{Content, Parsers, CaProvider, load_ca, current_ca}
use kucero.Signer.CaProvider.Laws.{content_of, load_ca-content}

-- The two reads of each call.
abbrev pub Reads : Type 0
Reads = List (Content × Content)

module _ (x : Parsers) where
  -- The answers of one call after another; the provider is kept between them.
  unfoldable pub current_all :
      Reads → CaProvider → Option (List (CertificateAuthority × Option Error) × CaProvider)
  current_all [] p = some ([], p)
  current_all ((c, c') ∷ reads) p = elim (current_ca x c c' p) [
    | none ↦ none
    | some (answer, p') ↦ elim (current_all reads p') [
      | none ↦ none
      | some (answers, p'') ↦ some (answer ∷ answers, p'')
    ]
  ]

  current_all-cons :
      (c c' : Content) (reads : Reads) (p p' p'' : CaProvider)
      (answer : CertificateAuthority × Option Error)
      (answers : List (CertificateAuthority × Option Error))
      → current_ca x c c' p ≡ some (answer, p')
      → current_all reads p' ≡ some (answers, p'')
      → current_all ((c, c') ∷ reads) p ≡ some (answer ∷ answers, p'')
  unfolding current_all
  current_all-cons c c' reads p p' p'' answer answers call calls = ground arith

abbrev pub same_content : Content → Content → Bool
same_content c d = c.cert_pem == d.cert_pem && c.key_pem == d.key_pem

-- The abstract provider: the content in use, which is kept while the files have it, and else
-- replaced by what they have then if that can be loaded. An answer is the content in use after it,
-- and whether the call failed.
abbrev pub next_content : (Content → Bool) → Content → Content × Content → Content × Bool
next_content loads content (c, c') =
    if same_content content c
    then (content, false)
    else if loads c'
    then (c', false)
    else (content, true)

unfoldable pub replay : (Content → Bool) → Content → Reads → List (Content × Bool) × Content
replay loads content [] = ([], content)
replay loads content (r ∷ reads) =
    let answer = next_content loads content r in
    let (answers, last) = replay loads answer.0 reads in (answer ∷ answers, last)

abbrev pub is_ok : {A : Type 0} → Result A → Bool
is_ok (ok a) = true
is_ok (err e) = false

abbrev pub loads : Parsers → String → Content → Bool
loads x name c = is_ok (load_ca x name c)

abbrev pub failed : Option Error → Bool
failed none = false
failed (some e) = true

abbrev pub seen : CertificateAuthority × Option Error → Content × Bool
seen (ca, e) = (content_of ca, failed e)

-- A provider that holds an authority.
abbrev pub holding : String → CertificateAuthority → CaProvider
holding name ca = record { ca_value = some ca; loader_name = name }

module _ (x : Parsers) (name : String) where
  current_ca-same :
      (c c' : Content) (old : CertificateAuthority)
      → same_content (content_of old) c ≡ true
      → current_ca x c c' (holding name old) ≡ some ((old, none), holding name old)
  unfolding current_ca
  current_ca-same c c' old same = ground arith

  current_ca-kept :
      (c c' : Content) (old : CertificateAuthority) (e : Error)
      → same_content (content_of old) c ≡ false
      → load_ca x name c' ≡ err e
      → current_ca x c c' (holding name old) ≡ some ((old, some e), holding name old)
  unfolding current_ca
  current_ca-kept c c' old e stale bad = ground arith

  current_ca-loaded :
      (c c' : Content) (old ca : CertificateAuthority)
      → same_content (content_of old) c ≡ false
      → load_ca x name c' ≡ ok ca
      → current_ca x c c' (holding name old) ≡ some ((ca, none), holding name ca)
  unfolding current_ca
  current_ca-loaded c c' old ca stale read = ground arith

  current_ca-next :
      (c c' : Content) (old : CertificateAuthority)
      → (ca : CertificateAuthority) × (e : Option Error) × (current_ca x c c' (holding name old)
          ≡ some ((ca, e), holding name ca))
        × (seen (ca, e) ≡ next_content (loads x name) (content_of old) (c, c'))
  current_ca-next c c' old = elim (Bool-cases (same_content (content_of old) c)) [
    | inl same ↦ (old, none, current_ca-same c c' old same, rw same refl)
    | inr stale ↦ elim (Result-cases (load_ca x name c')) [
      | inr (e, bad) ↦ (old, some e, current_ca-kept c c' old e stale bad, rw (stale, bad) refl)
      | inl (ca, read) ↦ (
        ca,
        none,
        current_ca-loaded c c' old ca stale read,
        rw (stale, read) (ap (λ d. (d, false)) (load_ca-content x name c' ca read)),
      )
    ]
  ]

  -- A provider that holds an authority answers every one of any number of calls, and its answers, seen
  -- as the content of the authority and whether there was an error, are those of the abstract
  -- provider that starts at the content of its authority; and so is what it holds in the end.
  pub current_all-replay :
      (reads : Reads) (old : CertificateAuthority)
      → (answers : List (CertificateAuthority × Option Error)) × (last : CertificateAuthority)
        × (current_all x reads (holding name old) ≡ some (answers, holding name last))
        × (map seen answers ≡ (replay (loads x name) (content_of old) reads).0)
        × (content_of last ≡ (replay (loads x name) (content_of old) reads).1)
  unfolding current_all replay
  current_all-replay [] old = ([], old, refl, refl, refl)
  current_all-replay ((c, c') ∷ reads) old =
      let (ca, e, call, answer) = current_ca-next c c' old in
      let (answers, last, calls, same, end) = current_all-replay reads ca in
      (
        (ca, e) ∷ answers,
        last,
        current_all-cons x c c' reads (holding name old) (holding name ca) (holding name last)
            (ca, e) answers call calls,
        rw (← answer, same) refl,
        rw (← answer, end) refl,
      )
