-- ===== src/Base/Sort.antt =====
-- sort.Strings, and the membership test on lists of texts.
pub mod Perm
pub mod Table
pub mod By
use mathlib.Core.Path.{◌≡◌, refl}
use mathlib.Core.Bool.{Bool, false, true, ◌||◌}
use mathlib.Core.Option.{some}
use twister_aws.Base.Maps.{Map, lookup, keys}
use mathlib.Core.List.{List, [], ◌∷◌}
use native.Mathlib.Omega.{arith}
use twister_aws.Base.Tests.{if◌then◌else◌}
use twister_aws.Base.Texts.{Text, ◌==◌, lt_text}

unfoldable insert_sorted : Text → List Text → List Text
insert_sorted s [] = s ∷ []
insert_sorted s (t ∷ ts) =
    let rest = insert_sorted s ts in if lt_text t s then t ∷ rest else s ∷ t ∷ ts

unfoldable pub sort : List Text → List Text
unfolding insert_sorted
sort [] = []
sort (s ∷ ss) = insert_sorted s (sort ss)

unfoldable pub elem : Text → List Text → Bool
elem s [] = false
elem s (t ∷ ts) = t == s || elem s ts

elem-insert_sorted :
    (j s : Text) (ts : List Text) → elem j (insert_sorted s ts) ≡ (s == j || elem j ts)
unfolding elem insert_sorted
elem-insert_sorted j s [] = refl
elem-insert_sorted j s (t ∷ ts) = ground (arith, elem-insert_sorted j s ts)

-- Sorting keeps the elements.
pub elem-sort : (j : Text) (ts : List Text) → elem j (sort ts) ≡ elem j ts
unfolding elem sort
elem-sort j [] = refl
elem-sort j (t ∷ ts) = ground (arith, elem-insert_sorted j t (sort ts), elem-sort j ts)

-- A key that holds something is among the keys.
pub elem-keys {ℓ} :
    {V : Type ℓ} (m : Map V) (j : Text) (v : V) → lookup j m ≡ some v → elem j (keys m) ≡ true
unfolding elem lookup
elem-keys [] j v h = ground arith
elem-keys ((k, w) ∷ m) j v h = ground (arith, elem-keys m j v)

-- sort.Slice by the text that `key` gives.
module _ {ℓ} {A : Type ℓ} (key : A → Text) where
  unfoldable insert_by : A → List A → List A
  insert_by x [] = x ∷ []
  insert_by x (y ∷ ys) =
      let rest = insert_by x ys in if lt_text (key y) (key x) then y ∷ rest else x ∷ y ∷ ys

  unfoldable pub sort_by : List A → List A
  unfolding insert_by
  sort_by [] = []
  sort_by (x ∷ xs) = insert_by x (sort_by xs)

-- sort.Slice by a less function.
module _ {ℓ} {A : Type ℓ} (lt : A → A → Bool) where
  unfoldable pub insert_with : A → List A → List A
  insert_with x [] = x ∷ []
  insert_with x (y ∷ ys) = let rest = insert_with x ys in if lt y x then y ∷ rest else x ∷ y ∷ ys

  unfoldable pub sort_with : List A → List A
  unfolding insert_with
  sort_with [] = []
  sort_with (x ∷ xs) = insert_with x (sort_with xs)
