-- ===== src/Authority/Usages/Sorting.antt =====
-- The order of the extended usages in pkg/pki/authority/policies.go.
use mathlib.Core.Logic.{∥∥₁_elim}
use mathlib.Core.List.{Perm, Permᴰ}
use kucero.Base.{
  ℕ, ◌<◌, ◌≡◌, refl, ◌∙◌, false, ◌||◌, List, [], ◌∷◌, arith, contains, nat_eq, All, ◌==◌,
}
use kucero.Authority.Usages.{insert, sort, add_ext}

insert_comm : (a b : ℕ) (l : List ℕ) → insert a (insert b l) ≡ insert b (insert a l)
unfolding insert
insert_comm a b [] = ground arith
insert_comm a b (c ∷ l) = ground (arith, insert_comm a b l)

sort-permᴰ : {l m : List ℕ} → Permᴰ l m → sort l ≡ sort m
unfolding sort
sort-permᴰ Permᴰ.nil = refl
sort-permᴰ (Permᴰ.cons {b = b} e p) = cc (sort-permᴰ p, e)
sort-permᴰ (Permᴰ.swap {a = a} {b = b} {l = l} e f) = cc (insert_comm a b (sort l), e, f)
sort-permᴰ (Permᴰ.trans p q) = sort-permᴰ p ∙ sort-permᴰ q

List-set : IsSet (List ℕ)
List-set = hlevel

-- Two visits of the same set are sorted alike.
pub sort-perm : {l m : List ℕ} → Perm l m → sort l ≡ sort m
sort-perm p = ∥∥₁_elim p (List-set _ _) sort-permᴰ

contains-insert : (v a : ℕ) (l : List ℕ) → contains (insert a l) v ≡ (v == a || contains l v)
unfolding insert
contains-insert v a [] = refl
contains-insert v a (b ∷ l) = ground (arith, contains-insert v a l)

pub contains-sort : (v : ℕ) (l : List ℕ) → contains (sort l) v ≡ contains l v
unfolding sort
contains-sort v [] = refl
contains-sort v (a ∷ l) = ground (arith, contains-insert v a (sort l), contains-sort v l)

abbrev pub Distinct : List ℕ → Type 0
Distinct [] = Unit
Distinct (a ∷ l) = (contains l a ≡ false) × Distinct l

-- Each element is below all that follow it.
abbrev pub Ascending : List ℕ → Type 0
Ascending [] = Unit
Ascending (a ∷ l) = All (λ b. a < b) l × Ascending l

All-lt_trans : (a b : ℕ) (l : List ℕ) → a < b → All (λ c. b < c) l → All (λ c. a < c) l
All-lt_trans a b [] h k = tt
All-lt_trans a b (c ∷ l) h k = (omega arith, All-lt_trans a b l h k.1)

All-insert : (a b : ℕ) (l : List ℕ) → a < b → All (λ c. a < c) l → All (λ c. a < c) (insert b l)
unfolding insert
All-insert a b [] h k = (h, tt)
All-insert a b (c ∷ l) h k = ground (arith, All-insert a b l h k.1)

insert-Ascending :
    (a : ℕ) (l : List ℕ) → contains l a ≡ false → Ascending l → Ascending (insert a l)
unfolding insert
insert-Ascending a [] h k = (tt, tt)
insert-Ascending a (b ∷ l) h k =
    ground (arith, insert-Ascending a l, All-lt_trans a b l, All-insert b a l)

pub sort-Ascending : (l : List ℕ) → Distinct l → Ascending (sort l)
unfolding sort
sort-Ascending [] d = tt
sort-Ascending (a ∷ l) d =
    insert-Ascending a (sort l) (contains-sort a l ∙ d.0) (sort-Ascending l d.1)

pub add_ext-Distinct : (a : ℕ) (l : List ℕ) → Distinct l → Distinct (add_ext a l)
unfolding add_ext
add_ext-Distinct a l d = ground arith

pub contains-add_ext : (v a : ℕ) (l : List ℕ) → contains (add_ext a l) v ≡ (v == a || contains l v)
unfolding add_ext
contains-add_ext v a l = ground arith
