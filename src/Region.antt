-- ===== src/Region.antt =====
-- Regions: internal/s3buckets/region.go, whose NormalizeRegion internal/secretstore/store.go and
-- internal/paramstore/store.go repeat word for word.
pub mod Laws
use twister_aws.Base.{
  ℕ, Text, codes, Bool, true, false, not, ◌&&◌, ◌||◌, [], ◌∷◌, ◌==◌, leb, ltb, eqb, length, is_nil,
  if◌then◌else◌,
}
use twister_aws.Base.Strings.{to_lower, trim_space}

abbrev pub default_region : Text
default_region = codes "us-east-1"

unfoldable pub normalize_region : Text → Text
normalize_region s = let t = to_lower (trim_space s) in if t == [] then default_region else t

-- [a-z]
unfoldable pub is_lower : ℕ → Bool
is_lower c = leb b'a' c && leb c b'z'

-- [a-z0-9]
unfoldable pub is_lower_or_digit : ℕ → Bool
unfolding is_lower
is_lower_or_digit c = is_lower c || (leb b'0' c && leb c b'9')

-- [a-z0-9-]*[a-z0-9]$
unfoldable pub matches_tail : Text → Bool
unfolding is_lower_or_digit
matches_tail [] = false
matches_tail (c ∷ []) = is_lower_or_digit c
matches_tail (c ∷ d ∷ s) = (is_lower_or_digit c || eqb c b'-') && matches_tail (d ∷ s)

-- ^[a-z][a-z0-9-]*[a-z0-9]$|^[a-z0-9]{1,2}$
unfoldable pub matches_region_segment : Text → Bool
unfolding matches_tail
matches_region_segment [] = false
matches_region_segment (c ∷ []) = is_lower_or_digit c
matches_region_segment (c ∷ d ∷ []) =
    (is_lower c && matches_tail (d ∷ [])) || (is_lower_or_digit c && is_lower_or_digit d)
matches_region_segment (c ∷ s) = is_lower c && matches_tail s

unfoldable pub is_valid_region_segment : Text → Bool
unfolding matches_region_segment
is_valid_region_segment s =
    if s == [] || ltb 32 (length s)
    then false
    else matches_region_segment s && not (s == codes "..") && not (s == codes ".")
