-- ===== src/Authority/Usages/Laws.antt =====
-- `keyUsagesFromStrings` of pkg/pki/authority/policies.go, usage by usage.
use mathlib.Core.List.{Perm, append-nil, append_assoc}
use mathlib.Core.Bool.{cond}
use kucero.Base.{
  ℕ, ◌≡◌, refl, ◌∙◌, ap, Bool, true, false, not, ◌||◌, Option, none, some, List, [], ◌∷◌, ◌++◌,
  arith, contains, nat_eq, ◌==◌, any, select, is_nil, inl, inr, Bool-cases,
}
use kucero.Api.Error.{KeyUsage, about_usages, ok, err}
use kucero.Authority.Usages.{
  key_usage_dict, ext_key_usage_dict, Collected, collect_found, collect, nothing_collected, sort,
  key_usages_from_strings,
}
use kucero.Authority.Usages.Bits.{test_bit, test_bit-bit_or, test_bit-zero}
use kucero.Authority.Usages.Sorting.{
  sort-perm, contains-sort, Distinct, Ascending, sort-Ascending, add_ext-Distinct, contains-add_ext,
}

-- What one usage contributes, from the answers of the two dictionaries.
abbrev bit_found : ℕ → Option ℕ → Bool
bit_found j none = false
bit_found j (some val) = test_bit j val

-- The usage sets bit j of the mask.
pub grants_bit : ℕ → KeyUsage → Bool
grants_bit j u = bit_found j (key_usage_dict u)

-- The usage stands for the extended usage v.
abbrev grants_found : ℕ → Option ℕ → Option ℕ → Bool
grants_found v (some _) _ = false
grants_found v none none = false
grants_found v none (some val) = v == val

pub grants_ext : ℕ → KeyUsage → Bool
grants_ext v u = grants_found v (key_usage_dict u) (ext_key_usage_dict u)

abbrev unknown_found : Option ℕ → Option ℕ → Bool
unknown_found none none = true
unknown_found _ _ = false

-- Neither dictionary has the usage.
unfoldable pub is_unknown : KeyUsage → Bool
is_unknown u = unknown_found (key_usage_dict u) (ext_key_usage_dict u)

module _ (u : KeyUsage) (c : Collected) where
  found-bit :
      (a b : Option ℕ) (j : ℕ)
      → test_bit j (collect_found a b u c).key_usage ≡ (test_bit j c.key_usage || bit_found j a)
  unfolding collect_found
  found-bit (some val) b j = test_bit-bit_or j _ _
  found-bit none (some val) j = ground arith
  found-bit none none j = ground arith

  found-ext :
      (a b : Option ℕ) (v : ℕ)
      → contains (collect_found a b u c).ext_key_usages v
        ≡ (contains c.ext_key_usages v || grants_found v a b)
  unfolding collect_found
  found-ext (some val) b v = ground arith
  found-ext none (some val) v = ground (arith, contains-add_ext v val c.ext_key_usages)
  found-ext none none v = ground arith

  found-unknown :
      (a b : Option ℕ)
      → (collect_found a b u c).unrecognized
        ≡ c.unrecognized ++ cond (unknown_found a b) (u ∷ []) []
  unfolding collect_found
  found-unknown (some val) b = rw append-nil
  found-unknown none (some val) = rw append-nil
  found-unknown none none = refl

  found-Distinct :
      (a b : Option ℕ) → Distinct c.ext_key_usages → Distinct (collect_found a b u c).ext_key_usages
  unfolding collect_found
  found-Distinct (some val) b d = d
  found-Distinct none (some val) d = add_ext-Distinct val c.ext_key_usages d
  found-Distinct none none d = d

collect-bit :
    (us : List KeyUsage) (c : Collected) (j : ℕ)
    → test_bit j (collect us c).key_usage ≡ (test_bit j c.key_usage || any (grants_bit j) us)
unfolding collect grants_bit
collect-bit [] c j = ground arith
collect-bit (u ∷ us) c j =
    let a = key_usage_dict u in
    let b = ext_key_usage_dict u in
    ground (arith, found-bit u c a b j, collect-bit us (collect_found a b u c) j)

collect-ext :
    (us : List KeyUsage) (c : Collected) (v : ℕ)
    → contains (collect us c).ext_key_usages v
      ≡ (contains c.ext_key_usages v || any (grants_ext v) us)
unfolding collect grants_ext
collect-ext [] c v = ground arith
collect-ext (u ∷ us) c v =
    let a = key_usage_dict u in
    let b = ext_key_usage_dict u in
    ground (arith, found-ext u c a b v, collect-ext us (collect_found a b u c) v)

collect-unknown :
    (us : List KeyUsage) (c : Collected)
    → (collect us c).unrecognized ≡ c.unrecognized ++ select is_unknown us
unfolding collect is_unknown
collect-unknown [] c = rw append-nil
collect-unknown (u ∷ us) c =
    collect-unknown us _
    ∙ rw (found-unknown u c _ _) (
        append_assoc c.unrecognized (cond (is_unknown u) (u ∷ []) []) (select is_unknown us)
        ∙ ap (λ t. c.unrecognized ++ t) (select_cons _ us))
  where
    select_cons :
        (b : Bool) (l : List KeyUsage)
        → cond b (u ∷ []) [] ++ select is_unknown l
          ≡ cond b (u ∷ select is_unknown l) (select is_unknown l)
    select_cons true l = refl
    select_cons false l = refl

collect-Distinct :
    (us : List KeyUsage) (c : Collected)
    → Distinct c.ext_key_usages
    → Distinct (collect us c).ext_key_usages
unfolding collect
collect-Distinct [] c d = d
collect-Distinct (u ∷ us) c d = collect-Distinct us _ (found-Distinct u c _ _ d)

is_nil-select : (p : KeyUsage → Bool) (us : List KeyUsage) → is_nil (select p us) ≡ not (any p us)
is_nil-select p [] = refl
is_nil-select p (u ∷ us) = ground (arith, is_nil-select p us)

key_usages_form :
    (range : List ℕ → List ℕ) (us : List KeyUsage)
    → let c = collect us nothing_collected in
      key_usages_from_strings range us
      ≡ cond
          (any is_unknown us)
          (err (about_usages "unrecognized usage values: %q" (select is_unknown us)))
          (ok (c.key_usage, sort (range c.ext_key_usages)))
unfolding key_usages_from_strings
key_usages_form range us =
    rw (collect-unknown us nothing_collected, is_nil-select)
      (elim (Bool-cases (any is_unknown us)) [ inl e ↦ rw e | inr e ↦ rw e ])

-- With a usage that neither dictionary has, the call fails and names exactly those usages, in
-- their order.
pub key_usages_unknown :
    (range : List ℕ → List ℕ) (us : List KeyUsage)
    → any is_unknown us ≡ true
    → key_usages_from_strings range us
      ≡ err (about_usages "unrecognized usage values: %q" (select is_unknown us))
key_usages_unknown range us h = key_usages_form range us ∙ rw h

-- Without an unknown usage the call succeeds, whatever order `range` visits the set in: bit j of
-- the mask is set exactly if a usage sets it, and the extended usages are exactly those that a
-- usage stands for, in strictly ascending order.
pub key_usages_known :
    (range : List ℕ → List ℕ)
    → ((l : List ℕ) → Perm (range l) l)
    → (us : List KeyUsage) → any is_unknown us ≡ false
    → (k : ℕ) × (e : List ℕ) × (key_usages_from_strings range us ≡ ok (k, e))
      × ((j : ℕ) → test_bit j k ≡ any (grants_bit j) us)
      × ((v : ℕ) → contains e v ≡ any (grants_ext v) us)
      × Ascending e
key_usages_known range perm us h =
    let c = collect us nothing_collected in
    let e = c.ext_key_usages in
    (
      c.key_usage,
      sort e,
      key_usages_form range us ∙ rw h (rw (sort-perm (perm e))),
      λ j. collect-bit us nothing_collected j ∙ rw test_bit-zero,
      λ v. contains-sort v e ∙ collect-ext us nothing_collected v,
      sort-Ascending e (collect-Distinct us nothing_collected tt),
    )
