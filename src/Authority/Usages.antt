-- ===== src/Authority/Usages.antt =====
-- The dictionaries and `keyUsagesFromStrings` of pkg/pki/authority/policies.go.
-- A map from usages is a function into `Option`; the set of extended usages is a list without
-- repetition, and `range` is the order, unknown to the program, in which Go visits it.
mod Bits
mod Sorting
pub mod Laws
mod Tests
use Prim.Native.Nat.{bit_or}
use kucero.Base.{
  ℕ, ◌^◌, String, Option, none, some, List, [], ◌∷◌, ◌++◌, Bool, contains, nat_eq, leb, is_nil,
  if◌then◌else◌,
}
use kucero.Api.Error.{
  KeyUsage, signing, digital_signature, content_commitment, key_encipherment, key_agreement,
  data_encipherment, cert_sign, crl_sign, encipher_only, decipher_only, any, server_auth,
  client_auth, code_signing, email_protection, smime, ipsec_end_system, ipsec_tunnel, ipsec_user,
  timestamping, ocsp_signing, microsoft_sgc, netscape_sgc, about_usages, Result, ok, err,
}

-- `x509.KeyUsage`: bit i of the mask, in the order of the constants of crypto/x509.
unfoldable pub key_usage_dict : KeyUsage → Option ℕ
key_usage_dict signing = some (2 ^ 0)
key_usage_dict digital_signature = some (2 ^ 0)
key_usage_dict content_commitment = some (2 ^ 1)
key_usage_dict key_encipherment = some (2 ^ 2)
key_usage_dict key_agreement = some (2 ^ 4)
key_usage_dict data_encipherment = some (2 ^ 3)
key_usage_dict cert_sign = some (2 ^ 5)
key_usage_dict crl_sign = some (2 ^ 6)
key_usage_dict encipher_only = some (2 ^ 7)
key_usage_dict decipher_only = some (2 ^ 8)
key_usage_dict _ = none

-- `x509.ExtKeyUsage`: the constants of crypto/x509 count from 0.
unfoldable pub ext_key_usage_dict : KeyUsage → Option ℕ
ext_key_usage_dict any = some 0
ext_key_usage_dict server_auth = some 1
ext_key_usage_dict client_auth = some 2
ext_key_usage_dict code_signing = some 3
ext_key_usage_dict email_protection = some 4
ext_key_usage_dict smime = some 4
ext_key_usage_dict ipsec_end_system = some 5
ext_key_usage_dict ipsec_tunnel = some 6
ext_key_usage_dict ipsec_user = some 7
ext_key_usage_dict timestamping = some 8
ext_key_usage_dict ocsp_signing = some 9
ext_key_usage_dict microsoft_sgc = some 10
ext_key_usage_dict netscape_sgc = some 11
ext_key_usage_dict _ = none

-- The variables of the loop.
pub record Collected : Type 0 where
  pub key_usage : ℕ
  pub unrecognized : List KeyUsage
  pub ext_key_usages : List ℕ

-- `extKeyUsages[val] = struct{}{}`
unfoldable pub add_ext : ℕ → List ℕ → List ℕ
add_ext val exts = if contains exts val then exts else val ∷ exts

-- One round of the loop, on what the two dictionaries answer.
unfoldable pub collect_found : Option ℕ → Option ℕ → KeyUsage → Collected → Collected
unfolding add_ext
collect_found (some val) _ usage c = record c { key_usage = bit_or c.key_usage val }
collect_found none (some val) usage c = record c { ext_key_usages = add_ext val c.ext_key_usages }
collect_found none none usage c = record c { unrecognized = c.unrecognized ++ (usage ∷ []) }

unfoldable pub collect : List KeyUsage → Collected → Collected
unfolding collect_found key_usage_dict ext_key_usage_dict
collect [] c = c
collect (usage ∷ usages) c =
    collect usages (collect_found (key_usage_dict usage) (ext_key_usage_dict usage) usage c)

abbrev pub nothing_collected : Collected
nothing_collected = record { key_usage = 0; unrecognized = []; ext_key_usages = [] }

-- `sort.Sort` with the order `Less` of `sortedExtKeyUsage`.
unfoldable pub insert : ℕ → List ℕ → List ℕ
insert a [] = a ∷ []
insert a (b ∷ bs) = if leb a b then a ∷ b ∷ bs else b ∷ insert a bs

unfoldable pub sort : List ℕ → List ℕ
unfolding insert
sort [] = []
sort (a ∷ rest) = insert a (sort rest)

unfoldable pub key_usages_from_strings : (List ℕ → List ℕ) → List KeyUsage → Result (ℕ × List ℕ)
unfolding collect sort
key_usages_from_strings range usages =
    let c = collect usages nothing_collected in
    let sorted = sort (range c.ext_key_usages) in
    if is_nil c.unrecognized
    then ok (c.key_usage, sorted)
    else err (about_usages "unrecognized usage values: %q" c.unrecognized)
