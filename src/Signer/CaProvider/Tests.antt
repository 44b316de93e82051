-- ===== src/Signer/CaProvider/Tests.antt =====
-- The theorems on `caProvider` at concrete files: a provider that is asked again after the files
-- have changed.
use kucero.Base.{List, map, false, ◌≡◌, refl, Option, none, some, [], ◌∷◌, bytes, text_eq}
use kucero.Api.Error.{Error, ok}
use kucero.Authority.Sign.{CertificateAuthority}
use kucero.Samples.{root, ca}
use kucero.Signer.CaProvider.{Content, Parsers, CaProvider, load_ca, new_ca_provider, current_ca}
use kucero.Signer.CaProvider.Replay.{
  Reads, current_all, replay, loads, seen, holding, current_all-replay,
}
use kucero.Signer.CaProvider.Laws.{
  content_of, IsLoaded, IsReady, IsAnswer, new_ca_provider-IsReady, current_ca-IsAnswer,
}

abbrev parsers : Parsers
parsers = record {
  parse_certs_pem = λ pem. ok (root ∷ []);
  parse_private_key_pem = λ pem. ok pem;
  as_signer = λ key. some key;
}

abbrev first : Content
first = record { cert_pem = bytes "crt"; key_pem = bytes "pem" }

abbrev second : Content
second = record { cert_pem = bytes "new"; key_pem = bytes "pem" }

abbrev provider : CaProvider
provider = record { ca_value = some ca; loader_name = "csr-controller" }

unchanged_files : current_ca parsers first second provider ≡ some ((ca, none), provider)
unfolding current_ca text_eq
unchanged_files = refl

new_provider-IsReady : IsReady parsers provider
unfolding new_ca_provider
new_provider-IsReady =
    new_ca_provider-IsReady parsers "ca.crt" (ok "csr-controller") first provider refl

current_ca-IsAnswer_example :
    (ca' : CertificateAuthority) × (e : Option Error) × (p' : CaProvider) × (current_ca parsers
        second second provider
      ≡ some ((ca', e), p'))
    × (p'.ca_value ≡ some ca')
    × IsLoaded parsers p'.loader_name ca'
    × IsAnswer parsers ca second second ca' e
unfolding IsLoaded load_ca
current_ca-IsAnswer_example = current_ca-IsAnswer parsers second second provider ca refl refl

-- The files change between the calls.
abbrev changing : Reads
changing = (first, first) ∷ (second, second) ∷ (second, first) ∷ []

replay_runs :
    replay (loads parsers "csr-controller") first changing
    ≡ ((first, false) ∷ (second, false) ∷ (second, false) ∷ [], second)
unfolding replay load_ca text_eq
replay_runs = refl

current_all-replay_example :
    (answers : List (CertificateAuthority × Option Error)) × (last : CertificateAuthority)
    × (current_all parsers changing provider ≡ some (answers, holding "csr-controller" last))
    × (map seen answers ≡ (replay (loads parsers "csr-controller") first changing).0)
    × (content_of last ≡ (replay (loads parsers "csr-controller") first changing).1)
current_all-replay_example = current_all-replay parsers "csr-controller" changing ca
