-- ===== src/Authority/Usages/Tests.antt =====
-- Runs of `keyUsagesFromStrings`, and its theorems at concrete usages.
use mathlib.Core.List.{reverse, reverse_perm}
use kucero.Base.{ℕ, ◌≡◌, refl, List, [], ◌∷◌, contains, nat_eq, any, select}
use kucero.Api.Error.{
  KeyUsage, key_encipherment, digital_signature, server_auth, client_auth, other, about_usages, ok,
  err,
}
use kucero.Authority.Usages.{key_usages_from_strings}
use kucero.Authority.Usages.Bits.{test_bit}
use kucero.Authority.Usages.Sorting.{Ascending}
use kucero.Authority.Usages.Laws.{
  is_unknown, grants_bit, grants_ext, key_usages_unknown, key_usages_known,
}

abbrev serving : List KeyUsage
serving = server_auth ∷ key_encipherment ∷ digital_signature ∷ client_auth ∷ []

abbrev strange : List KeyUsage
strange = server_auth ∷ other "foo" ∷ key_encipherment ∷ other "bar" ∷ []

serving_run : key_usages_from_strings (λ l. l) serving ≡ ok (5, 1 ∷ 2 ∷ [])
unfolding key_usages_from_strings nat_eq
serving_run = refl

key_usages_known_example :
    (k : ℕ) × (e : List ℕ) × (key_usages_from_strings reverse serving ≡ ok (k, e))
    × ((j : ℕ) → test_bit j k ≡ any (grants_bit j) serving)
    × ((v : ℕ) → contains e v ≡ any (grants_ext v) serving)
    × Ascending e
unfolding is_unknown key_usages_from_strings
key_usages_known_example = key_usages_known reverse reverse_perm serving refl

key_usages_unknown_example :
    key_usages_from_strings (λ l. l) strange
    ≡ err (about_usages "unrecognized usage values: %q" (select is_unknown strange))
unfolding is_unknown key_usages_from_strings
key_usages_unknown_example = key_usages_unknown (λ l. l) strange refl
