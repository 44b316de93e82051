-- ===== src/Api/Csr.antt =====
-- `CertificateSigningRequest` of `certificates.k8s.io/v1`.
use kucero.Base.{String, List, Option, ℤ, Text, Eq, string_eq}
use kucero.Api.Time.{Time}
use kucero.Api.Error.{KeyUsage}

pub string_discrete : Discrete String
unfolding string_eq
string_discrete = string_eq.dec

pub KeyUsage-discrete : Discrete KeyUsage
unfolding string_discrete
KeyUsage-discrete = hlevel string_discrete

instance unfoldable pub usage_eq : Eq KeyUsage
unfolding KeyUsage-discrete string_discrete string_eq
usage_eq = record { dec = KeyUsage-discrete }

pub record Spec : Type 0 where
  pub request : Text
  pub username : String
  pub uid : String
  pub groups : List String
  pub extra : List (String × List String)
  pub usages : List KeyUsage
  pub expiration_seconds : Option ℤ

pub record Condition : Type 0 where
  pub kind : String
  pub status : String
  pub reason : String
  pub message : String
  pub last_update_time : Time

pub record CertificateSigningRequest : Type 0 where
  pub name : String
  pub deletion_timestamp : Option Time
  pub spec : Spec
  pub conditions : List Condition
  pub certificate : Option Text
