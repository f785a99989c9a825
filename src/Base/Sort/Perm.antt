-- ===== src/Base/Sort/Perm.antt =====
-- Sorting by a strict total order gives the same list for every order of the elements.
use mathlib.Core.Path.{◌≡◌, refl, sym, ap, ◌∙◌}
use mathlib.Core.Bool.{Bool, true, false}
use mathlib.Core.List.{List, [], ◌∷◌, ◌++◌}
use native.Mathlib.Omega.{arith}
use twister_aws.Base.Tests.{if_lem}
use twister_aws.Base.Lists.{All}
use twister_aws.Base.Texts.{Text, lt_text}
use twister_aws.Base.Sort.{insert_with, sort_with}

pub record IsStrictTotal {ℓ} {A : Type ℓ} (lt : A → A → Bool) : Type ℓ where
  pub asym : (a b : A) → lt a b ≡ true → lt b a ≡ false
  pub trans : (a b c : A) → lt a b ≡ true → lt b c ≡ true → lt a c ≡ true
  pub connex : (a b : A) → lt a b ≡ false → lt b a ≡ false → a ≡ b

module _ {ℓ} {A : Type ℓ} (lt : A → A → Bool) (o : IsStrictTotal lt) where
  insert_with_comm :
      (a b : A) (xs : List A)
      → insert_with lt a (insert_with lt b xs) ≡ insert_with lt b (insert_with lt a xs)
  unfolding insert_with
  insert_with_comm a b [] = ground (arith, o.asym a b, o.connex a b)
  insert_with_comm a b (x ∷ xs) = ground (
    arith,
    insert_with_comm a b xs,
    o.asym a b,
    o.connex a b,
    o.connex a x,
    o.connex b x,
    o.trans a x b,
    o.trans b x a,
  )

  -- Elements that are put in one after the other.
  insert_all : List A → List A → List A
  insert_all [] ys = ys
  insert_all (x ∷ xs) ys = insert_with lt x (insert_all xs ys)

  sort_with-append : (xs ys : List A) → sort_with lt (xs ++ ys) ≡ insert_all xs (sort_with lt ys)
  unfolding sort_with insert_all
  sort_with-append [] ys = refl
  sort_with-append (x ∷ xs) ys = ap (insert_with lt x) (sort_with-append xs ys)

  insert_all-insert_with :
      (x : A) (xs ys : List A)
      → insert_all xs (insert_with lt x ys) ≡ insert_with lt x (insert_all xs ys)
  unfolding insert_all
  insert_all-insert_with x [] ys = refl
  insert_all-insert_with x (y ∷ xs) ys =
      ap (insert_with lt y) (insert_all-insert_with x xs ys)
      ∙ insert_with_comm y x (insert_all xs ys)

  insert_all_comm :
      (xs ys zs : List A) → insert_all xs (insert_all ys zs) ≡ insert_all ys (insert_all xs zs)
  unfolding insert_all
  insert_all_comm [] ys zs = refl
  insert_all_comm (x ∷ xs) ys zs =
      ap (insert_with lt x) (insert_all_comm xs ys zs)
      ∙ sym (insert_all-insert_with x ys (insert_all xs zs))

  -- Two parts of a list may change places.
  pub sort_with-append_comm :
      (xs ys zs : List A) → sort_with lt (xs ++ (ys ++ zs)) ≡ sort_with lt (ys ++ (xs ++ zs))
  sort_with-append_comm xs ys zs =
      rw
        (
          sort_with-append xs (ys ++ zs),
          sort_with-append ys zs,
          sort_with-append ys (xs ++ zs),
          sort_with-append xs zs,
        )
        (insert_all_comm xs ys (sort_with lt zs))

  pub sort_with-append_cong :
      (xs ys zs : List A)
      → sort_with lt ys ≡ sort_with lt zs
      → sort_with lt (xs ++ ys) ≡ sort_with lt (xs ++ zs)
  sort_with-append_cong xs ys zs e = rw (sort_with-append xs ys, sort_with-append xs zs, e) refl

lt_text_asym : (s t : Text) → lt_text s t ≡ true → lt_text t s ≡ false
unfolding lt_text
lt_text_asym [] [] h = refl
lt_text_asym [] (d ∷ t) h = refl
lt_text_asym (c ∷ s) [] h = ground arith
lt_text_asym (c ∷ s) (d ∷ t) h = ground (arith, lt_text_asym s t)

lt_text_trans : (s t u : Text) → lt_text s t ≡ true → lt_text t u ≡ true → lt_text s u ≡ true
unfolding lt_text
lt_text_trans s t [] h k = ground arith
lt_text_trans s [] (e ∷ u) h k = ground arith
lt_text_trans [] (d ∷ t) (e ∷ u) h k = refl
lt_text_trans (c ∷ s) (d ∷ t) (e ∷ u) h k = ground (arith, lt_text_trans s t u)

lt_text_connex : (s t : Text) → lt_text s t ≡ false → lt_text t s ≡ false → s ≡ t
unfolding lt_text
lt_text_connex [] [] h k = refl
lt_text_connex [] (d ∷ t) h k = ground arith
lt_text_connex (c ∷ s) [] h k = ground arith
lt_text_connex (c ∷ s) (d ∷ t) h k = ground (arith, lt_text_connex s t)

pub lt_text-IsStrictTotal : IsStrictTotal lt_text
lt_text-IsStrictTotal = record {
  asym = lt_text_asym;
  trans = lt_text_trans;
  connex = lt_text_connex;
}

-- Sorting adds no element.
module _ {ℓ κ} {A : Type ℓ} (lt : A → A → Bool) (P : A → Type κ) where
  insert_with-All : (x : A) (xs : List A) → P x → All P xs → All P (insert_with lt x xs)
  unfolding insert_with
  insert_with-All x [] h k = (h, tt)
  insert_with-All x (y ∷ ys) h k =
      if_lem (All P) (lt y x) (λ t. (k.0, insert_with-All x ys h k.1)) (λ f. (h, k))

  pub sort_with-All : (xs : List A) → All P xs → All P (sort_with lt xs)
  unfolding sort_with
  sort_with-All [] h = h
  sort_with-All (x ∷ xs) h = insert_with-All x (sort_with lt xs) h.0 (sort_with-All xs h.1)
