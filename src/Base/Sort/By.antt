-- ===== src/Base/Sort/By.antt =====
-- What sort.Slice by a text keeps and makes: the elements, in the order of their keys.
use mathlib.Core.List.{Memᴰ}
use mathlib.Core.List.Memᴰ
use twister_aws.Base.{
  Text, ◌≡◌, ◌↔◌, inl, inr, Bool, true, false, List, [], ◌∷◌, All, if_lem, Bool-cases, arith,
  lt_text, if◌then◌else◌, subst, sym,
}
use twister_aws.Base.Sort.{insert_by, sort_by}
use twister_aws.Base.Sort.Perm.{lt_text-IsStrictTotal}

-- A condition that the loops append by.
module _ {ℓ} {A : Type ℓ} (p : A → Bool) where
  unfoldable pub keep : List A → List A
  keep [] = []
  keep (x ∷ xs) = let rest = keep xs in if p x then x ∷ rest else rest

  pub Memᴰ-keep : (a : A) (xs : List A) → Memᴰ a (keep xs) ↔ (Memᴰ a xs × (p a ≡ true))
  unfolding keep
  Memᴰ-keep a [] = (λ m. absurd (Memᴰ.not-nil m), λ m. absurd (Memᴰ.not-nil m.0))
  Memᴰ-keep a (x ∷ xs) =
      if_lem (λ r. Memᴰ a r ↔ (Memᴰ a (x ∷ xs) × (p a ≡ true))) (p x)
        (λ t. (
          λ m. elim (Memᴰ.cases_cons m) [
            | inl e ↦ (Memᴰ.head e, subst (λ y. p y ≡ true) (sym e) t)
            | inr below ↦ let r = (Memᴰ-keep a xs).0 below in (Memᴰ.tail r.0, r.1)
          ],
          λ m. elim (Memᴰ.cases_cons m.0) [
            | inl e ↦ Memᴰ.head e
            | inr below ↦ Memᴰ.tail ((Memᴰ-keep a xs).1 (below, m.1))
          ],
        ))
        (λ f. (
          λ m. let r = (Memᴰ-keep a xs).0 m in (Memᴰ.tail r.0, r.1),
          λ m. elim (Memᴰ.cases_cons m.0) [
            | inl e ↦ absurd (no (p x) f (subst (λ y. p y ≡ true) e m.1))
            | inr below ↦ (Memᴰ-keep a xs).1 (below, m.1)
          ],
        ))
    where
      no : (b : Bool) → b ≡ false → b ≡ true → ⊥
      no b f t = ground (arith, f, t)

not_less_trans : (a b c : Text) → lt_text a b ≡ false → lt_text b c ≡ false → lt_text a c ≡ false
not_less_trans a b c h k = elim (Bool-cases (lt_text a c)) [
  | inr f ↦ f
  | inl t ↦ elim (Bool-cases (lt_text b a)) [
    | inl less ↦ absurd (ground (arith, k, lt_text-IsStrictTotal.trans b a c less t))
    | inr more ↦ subst (λ x. lt_text x c ≡ false) (sym (lt_text-IsStrictTotal.connex a b h more)) k
  ]
]

module _ {ℓ} {A : Type ℓ} (key : A → Text) where
  Memᴰ-insert_by : (a x : A) (xs : List A) → Memᴰ a (insert_by key x xs) ↔ Memᴰ a (x ∷ xs)
  unfolding insert_by
  Memᴰ-insert_by a x [] = (λ m. m, λ m. m)
  Memᴰ-insert_by a x (y ∷ ys) =
      let rest = Memᴰ-insert_by a x ys in
      if_lem (λ r. Memᴰ a r ↔ Memᴰ a (x ∷ y ∷ ys)) (lt_text (key y) (key x))
        (λ t. (
          λ m. elim (Memᴰ.cases_cons m) [
            | inl e ↦ Memᴰ.tail (Memᴰ.head e)
            | inr below ↦ elim (Memᴰ.cases_cons (rest.0 below)) [
              | inl e ↦ Memᴰ.head e
              | inr m' ↦ Memᴰ.tail (Memᴰ.tail m')
            ]
          ],
          λ m. elim (Memᴰ.cases_cons m) [
            | inl e ↦ Memᴰ.tail (rest.1 (Memᴰ.head e))
            | inr below ↦ elim (Memᴰ.cases_cons below) [
              | inl e ↦ Memᴰ.head e
              | inr m' ↦ Memᴰ.tail (rest.1 (Memᴰ.tail m'))
            ]
          ],
        ))
        (λ f. (λ m. m, λ m. m))

  pub Memᴰ-sort_by : (a : A) (xs : List A) → Memᴰ a (sort_by key xs) ↔ Memᴰ a xs
  unfolding sort_by
  Memᴰ-sort_by a [] = (λ m. m, λ m. m)
  Memᴰ-sort_by a (x ∷ xs) =
      let one = Memᴰ-insert_by a x (sort_by key xs) in
      let rest = Memᴰ-sort_by a xs in
      (
        λ m. elim (Memᴰ.cases_cons (one.0 m)) [
          | inl e ↦ Memᴰ.head e
          | inr below ↦ Memᴰ.tail (rest.0 below)
        ],
        λ m. one.1 (elim (Memᴰ.cases_cons m) [
          | inl e ↦ Memᴰ.head e
          | inr below ↦ Memᴰ.tail (rest.1 below)
        ]),
      )

  -- No later key is less.
  abbrev pub IsSortedBy : List A → Type ℓ
  IsSortedBy [] = Unit {ℓ}
  IsSortedBy (x ∷ xs) = All (λ y. lt_text (key y) (key x) ≡ false) xs × IsSortedBy xs

  insert_by-All {κ} :
      (P : A → Type κ) (x : A) (xs : List A) → P x → All P xs → All P (insert_by key x xs)
  unfolding insert_by
  insert_by-All P x [] h k = (h, tt)
  insert_by-All P x (y ∷ ys) h k =
      if_lem (All P) (lt_text (key y) (key x)) (λ t. (k.0, insert_by-All P x ys h k.1))
        (λ f. (h, k))

  All_not_less :
      (x y : A) (zs : List A)
      → lt_text (key y) (key x) ≡ false
      → All (λ z. lt_text (key z) (key y) ≡ false) zs
      → All (λ z. lt_text (key z) (key x) ≡ false) zs
  All_not_less x y [] h k = tt
  All_not_less x y (z ∷ zs) h k =
      (not_less_trans (key z) (key y) (key x) k.0 h, All_not_less x y zs h k.1)

  insert_by-IsSortedBy : (x : A) (xs : List A) → IsSortedBy xs → IsSortedBy (insert_by key x xs)
  unfolding insert_by
  insert_by-IsSortedBy x [] h = (tt, tt)
  insert_by-IsSortedBy x (y ∷ ys) h =
      if_lem IsSortedBy (lt_text (key y) (key x))
        (λ t. (
          insert_by-All _ x ys (lt_text-IsStrictTotal.asym (key y) (key x) t) h.0,
          insert_by-IsSortedBy x ys h.1,
        ))
        (λ f. ((f, All_not_less x y ys f h.0), h))

  pub sort_by-IsSortedBy : (xs : List A) → IsSortedBy (sort_by key xs)
  unfolding sort_by
  sort_by-IsSortedBy [] = tt
  sort_by-IsSortedBy (x ∷ xs) = insert_by-IsSortedBy x (sort_by key xs) (sort_by-IsSortedBy xs)
