-- ===== src/S3/Listing/Tokens.antt =====
-- The tokens of a listing, and the keys from an offset on: internal/s3buckets/list.go.
use twister_aws.Base.{
  ℕ, zero, suc, ◌+◌, ◌^◌, ◌≤◌, ◌<◌, Text, ◌≡◌, refl, sym, subst, false, some, List, [], ◌∷◌, ◌++◌,
  ltb, length, take, drop, take-append-drop, arith,
}
use twister_aws.Base.Int.{ℤ, pos, negsuc}
use twister_aws.Base.Numbers.{atoi, decimal}
use twister_aws.Base.Numbers.Laws.{atoi-decimal, decimal-IsNumeral}
use twister_aws.Base.Results.{ok}
use twister_aws.S3.Listing.{clamp_keys, start_of}

drop_nil : (n : ℕ) → drop {A = Text} n [] ≡ []
drop_nil zero = refl
drop_nil (suc n) = refl

take_nil : (n : ℕ) → take {A = Text} n [] ≡ []
take_nil zero = refl
take_nil (suc n) = refl

pub drop_split : (s k : ℕ) (xs : List Text) → drop s xs ≡ take k (drop s xs) ++ drop (s + k) xs
drop_split s k [] = rw (drop_nil s, drop_nil (s + k), take_nil k) refl
drop_split zero k (x ∷ xs) =
    let e : k ≡ 0 + k = omega arith in
    subst (λ n. x ∷ xs ≡ take k (x ∷ xs) ++ drop n (x ∷ xs)) e (sym (take-append-drop k (x ∷ xs)))
drop_split (suc s) k (x ∷ xs) =
    let e : suc (s + k) ≡ suc s + k = omega arith in
    subst (λ n. drop s xs ≡ take k (drop s xs) ++ drop n (x ∷ xs)) e (drop_split s k xs)

pub clamp_keys_low : (z : ℤ) → 1 ≤ clamp_keys z
unfolding clamp_keys
clamp_keys_low (negsuc n) = omega arith
clamp_keys_low (pos n) = ground arith

start_of_cons :
    (c : ℕ) (s : Text) (n total : ℕ)
    → atoi (c ∷ s) ≡ some (pos n)
    → n ≤ total
    → start_of (c ∷ s) total ≡ ok n
unfolding start_of
start_of_cons c s n total read h =
    let f : ltb total n ≡ false = ground (arith, h) in ground (arith, read, f)

pub start_of-decimal :
    (n total : ℕ) → n ≤ total → total < 2 ^ 63 → start_of (decimal n) total ≡ ok n
start_of-decimal n total h range =
    let num = decimal-IsNumeral n (omega (arith, h, range)) in
    let read =
      subst (λ t. atoi t ≡ some (pos n)) num.whole (atoi-decimal n (omega (arith, h, range))) in
    rw num.whole (start_of_cons num.head num.tail n total read h)

pub first_token : (total : ℕ) → start_of [] total ≡ ok 0
unfolding start_of
first_token total = refl

pub drop_all : (n : ℕ) (xs : List Text) → length xs ≤ n → drop n xs ≡ []
drop_all zero [] h = refl
drop_all zero (x ∷ xs) h = absurd (omega (arith, h))
drop_all (suc n) [] h = refl
drop_all (suc n) (x ∷ xs) h = drop_all n xs (omega (arith, h))
