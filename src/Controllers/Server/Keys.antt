-- ===== src/Controllers/Server/Keys.antt =====
-- The objects of the API server under their names.
use kucero.Base.{String, ◌≡◌, ◌≢◌, sym, some, arith, string_eq}
use mathlib.Core.Path.{◌∙◌}
use kucero.Api.Csr.{CertificateSigningRequest, string_discrete}
use kucero.Controllers.Server.{Objects, update}

-- Every object is stored under its own name.
abbrev pub IsKeyed : Objects → Type 0
IsKeyed objects = (n : String) (c : CertificateSigningRequest) → objects n ≡ some c → c.name ≡ n

pub update-same :
    (objects : Objects) (n : String) (c : CertificateSigningRequest) → update objects n c n ≡ some c
unfolding update
update-same objects n c = ground arith

pub update-other :
    (objects : Objects) (n : String) (c : CertificateSigningRequest) (m : String)
    → n ≢ m
    → update objects n c m ≡ objects m
unfolding update
update-other objects n c m apart = ground arith

pub update-IsKeyed :
    (objects : Objects) (n : String) (c : CertificateSigningRequest)
    → IsKeyed objects
    → c.name ≡ n
    → IsKeyed (update objects n c)
unfolding update
update-IsKeyed objects n c keyed named m d stored = elim (string_discrete n m) [
  | no apart ↦ keyed m d (sym (update-other objects n c m apart) ∙ stored)
  | yes same ↦ ground arith
]
