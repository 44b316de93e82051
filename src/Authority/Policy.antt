-- ===== src/Authority/Policy.antt =====
-- `SigningPolicy` and `PermissiveSigningPolicy` of pkg/pki/authority/policies.go.
use kucero.Base.{ℕ, List, [], true, false}
use kucero.Api.Time.{Duration, add}
use kucero.Api.Error.{KeyUsage, Result, ok, ◌>>=◌}
use kucero.Api.X509.{Certificate}
use kucero.Authority.Usages.{key_usages_from_strings}

-- The interface: `apply` sets fields of the template, or refuses.
pub record SigningPolicy : Type 0 where
  pub apply : Certificate → Result Certificate

pub record PermissiveSigningPolicy : Type 0 where
  pub ttl : Duration
  pub usages : List KeyUsage

module _ (range : List ℕ → List ℕ) (p : PermissiveSigningPolicy) where
  -- The assignments of `apply`, from what `keyUsagesFromStrings` returned.
  abbrev pub applied : ℕ × List ℕ → Certificate → Certificate
  applied (usage, ext_usages) tmpl = record tmpl {
    key_usage = usage;
    ext_key_usage = ext_usages;
    not_after = add tmpl.not_before p.ttl;
    extra_extensions = [];
    extensions = [];
    basic_constraints_valid = true;
    is_ca = false;
  }

  unfoldable pub apply : Certificate → Result Certificate
  apply tmpl = do found ← key_usages_from_strings range p.usages; ok (applied found tmpl)

  abbrev pub permissive : SigningPolicy
  permissive = record { apply = apply }
