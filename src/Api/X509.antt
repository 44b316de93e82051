-- ===== src/Api/X509.antt =====
-- `pkix.Name`, `x509.CertificateRequest` and `x509.Certificate`. Keys, extensions and addresses are
-- their encodings.
use kucero.Base.{ℕ, Bool, String, List, Text}
use kucero.Api.Time.{Time}

pub record Name : Type 0 where
  pub common_name : String
  pub organization : List String

pub record CertificateRequest : Type 0 where
  pub raw : Text
  pub subject : Name
  pub dns_names : List String
  pub ip_addresses : List Text
  pub email_addresses : List String
  pub uris : List String
  pub public_key_algorithm : ℕ
  pub public_key : Text
  pub extensions : List Text
  pub extra_extensions : List Text

pub record Certificate : Type 0 where
  pub serial_number : ℕ
  pub subject : Name
  pub dns_names : List String
  pub ip_addresses : List Text
  pub email_addresses : List String
  pub uris : List String
  pub public_key_algorithm : ℕ
  pub public_key : Text
  pub extensions : List Text
  pub extra_extensions : List Text
  pub not_before : Time
  pub not_after : Time
  pub key_usage : ℕ
  pub ext_key_usage : List ℕ
  pub basic_constraints_valid : Bool
  pub is_ca : Bool
