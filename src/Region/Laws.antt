-- ===== src/Region/Laws.antt =====
-- What normalising a region gives, and what a valid region holds.
use twister_aws.Base.{
  ℕ, Text, ◌≡◌, ◌≢◌, refl, inl, inr, Bool-cases, true, [], ◌∷◌, ◌==◌, eq_iff, arith, Lacks,
}
use twister_aws.Base.Strings.{to_lower, trim_space}
use twister_aws.Base.Strings.Laws.{
  to_lower_idem, trim_space_idem, trim_space-to_lower, trim_space-All, to_lower-Lacks,
}
use twister_aws.Region.{
  default_region, normalize_region, is_lower_or_digit, matches_tail, matches_region_segment,
  is_valid_region_segment,
}

normalize_default : normalize_region default_region ≡ default_region
unfolding normalize_region to_lower trim_space ◌==◌
normalize_default = refl

folded_idem : (s : Text) → to_lower (trim_space (to_lower (trim_space s))) ≡ to_lower (trim_space s)
folded_idem s =
    cc (trim_space-to_lower (trim_space s), trim_space_idem s, to_lower_idem (trim_space s))

-- A normalised region is a fixed point, whatever text it came from.
pub normalize_region_idem : (s : Text) → normalize_region (normalize_region s) ≡ normalize_region s
normalize_region_idem s = elim (Bool-cases (to_lower (trim_space s) == [])) [
  | inl e ↦ unfold normalize_region in rw e (unfold normalize_region in normalize_default)
  | inr e ↦ unfold normalize_region in rw (e, folded_idem s, e) refl
]

pub normalize_region-trim_space : (s : Text) → normalize_region (trim_space s) ≡ normalize_region s
unfolding normalize_region
normalize_region-trim_space s = rw (trim_space_idem s)

pub normalize_region-Lacks : (s : Text) → Lacks 0 s → Lacks 0 (normalize_region s)
unfolding normalize_region
normalize_region-Lacks s h = elim (Bool-cases (to_lower (trim_space s) == [])) [
  | inl e ↦ rw e (omega arith)
  | inr e ↦ rw e (to_lower-Lacks 0 (trim_space s) (omega arith) (trim_space-All _ s h))
]

-- The region is never empty once it is normalised.
pub normalize_region-ne-nil : (s : Text) → normalize_region s ≢ []
unfolding normalize_region
normalize_region-ne-nil s = ground (arith, eq_iff (to_lower (trim_space s)) [])

lower_default : to_lower default_region ≡ default_region
unfolding to_lower
lower_default = refl

-- A normalised region has no upper case.
pub to_lower-normalize_region : (s : Text) → to_lower (normalize_region s) ≡ normalize_region s
to_lower-normalize_region s = elim (Bool-cases (to_lower (trim_space s) == [])) [
  | inl e ↦ unfold normalize_region in rw e lower_default
  | inr e ↦ unfold normalize_region in rw e (to_lower_idem (trim_space s))
]

digit_not_slash : (c : ℕ) → is_lower_or_digit c ≡ true → c ≢ b'/'
unfolding is_lower_or_digit
digit_not_slash c h = ground arith

matches_tail-Lacks : (s : Text) → matches_tail s ≡ true → Lacks b'/' s
unfolding matches_tail
matches_tail-Lacks [] h = tt
matches_tail-Lacks (c ∷ []) h = (ground arith, tt)
matches_tail-Lacks (c ∷ d ∷ s) h = (ground arith, matches_tail-Lacks (d ∷ s) (ground arith))

matches_region_segment-Lacks : (s : Text) → matches_region_segment s ≡ true → Lacks b'/' s
unfolding matches_region_segment
matches_region_segment-Lacks [] h = tt
matches_region_segment-Lacks (c ∷ []) h = (ground arith, tt)
matches_region_segment-Lacks (c ∷ d ∷ []) h = (ground arith, (ground arith, tt))
matches_region_segment-Lacks (c ∷ d ∷ e ∷ s) h =
    (ground arith, matches_tail-Lacks (d ∷ e ∷ s) (ground arith))

-- A valid region is one segment of a path.
pub is_valid_region_segment-Lacks : (s : Text) → is_valid_region_segment s ≡ true → Lacks b'/' s
unfolding is_valid_region_segment
is_valid_region_segment-Lacks s h = matches_region_segment-Lacks s (ground arith)
