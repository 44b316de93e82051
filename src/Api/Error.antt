-- ===== src/Api/Error.antt =====
-- Go's `error` as a value. An error keeps its format and what is formatted into it.
use kucero.Base.{
  ℕ, String, Text, List, Bool, Option, none, some, ◌≡◌, refl, ◌⊎◌, inl, inr, if◌then◌else◌,
}
use kucero.Api.Time.{Time}

-- The usages of `certificates.k8s.io` that the program names, and any other string.
pub data KeyUsage : Type 0 where
  signing digital_signature content_commitment key_encipherment key_agreement : KeyUsage
  data_encipherment cert_sign crl_sign encipher_only decipher_only any : KeyUsage
  server_auth client_auth code_signing email_protection smime : KeyUsage
  ipsec_end_system ipsec_tunnel ipsec_user timestamping ocsp_signing : KeyUsage
  microsoft_sgc netscape_sgc : KeyUsage
  other : String → KeyUsage

pub data Error : Type 0 where
  -- An error of code outside the repository.
  external : String → Error
  -- `errors.New`, or `fmt.Errorf` with nothing or with a text to format.
  message : String → Error
  about : String → String → Error
  about_text : String → Text → Error
  about_count : String → String → ℕ → Error
  about_time : String → Time → Error
  about_usages : String → List KeyUsage → Error
  -- `fmt.Errorf` over another error.
  wrap : String → Error → Error
  wrap_about : String → String → Error → Error

-- `(value, error)` where exactly one of the two counts.
pub data Result {ℓ} (A : Type ℓ) : Type ℓ where
  ok : A → Result A
  err : Error → Result A

infixl 5 ◌>>=◌
abbrev pub ◌>>=◌ {ℓ κ} : {A : Type ℓ} {B : Type κ} → Result A → (A → Result B) → Result B
ok a >>= f = f a
err e >>= f = err e

-- `if err != nil { return nil, wrapped(err) }`
abbrev pub map_err {ℓ} : {A : Type ℓ} → (Error → Error) → Result A → Result A
map_err f (ok a) = ok a
map_err f (err e) = err (f e)

-- `if err := e; err != nil { return nil, wrapped(err) }`
abbrev pub check : Option Error → (Error → Error) → Result (Unit {0})
check none wrapped = ok tt
check (some e) wrapped = err (wrapped e)

-- `if !b { return nil, e }`
abbrev pub guard : Bool → Error → Result (Unit {0})
guard b e = if b then ok tt else err e

-- To split on a computed result and keep the equation.
pub Result-cases {ℓ} :
    {A : Type ℓ} (r : Result A) → ((a : A) × (r ≡ ok a)) ⊎ ((e : Error) × (r ≡ err e))
Result-cases (ok a) = inl (a, refl)
Result-cases (err e) = inr (e, refl)

-- `errs = fmt.Errorf("%w; ", err)`, if there is an error.
abbrev pub noted : Option Error → Option Error → Option Error
noted errs none = errs
noted errs (some e) = some (wrap "%w; " e)
