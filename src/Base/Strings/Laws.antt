-- ===== src/Base/Strings/Laws.antt =====
-- Laws of the functions on text: blanks, case, and cutting at a byte.
use twister_aws.Base.Tests.{if◌then◌else◌, Bool-cases, if_lem, eqb}
use twister_aws.Base.Lists.{is_nil, length, drop, All}
use twister_aws.Base.Texts.{Text, Lacks}
use twister_aws.Base.Strings.{
  is_space, lower_byte, to_lower, trim_left, trim_right, trim_space, cut_byte, cut_last, has_prefix,
  trim_prefix, split, add_head, join,
}
use Prim.Native.Nat.{ℕ, ◌≤◌}
use native.Mathlib.Omega.{arith}
use mathlib.Core.Path.{◌≡◌, refl}
use mathlib.Core.Logic.{inl, inr}
use mathlib.Core.Logic.{◌≢◌}
use mathlib.Core.Bool.{Bool, false, true, ◌&&◌, ◌||◌}
use mathlib.Core.Option.{none, some}
use mathlib.Core.List.{List, [], ◌∷◌, ◌++◌}

lower_byte_idem : (c : ℕ) → lower_byte (lower_byte c) ≡ lower_byte c
unfolding lower_byte
lower_byte_idem c = ground arith

is_space-lower_byte : (c : ℕ) → is_space (lower_byte c) ≡ is_space c
unfolding is_space lower_byte
is_space-lower_byte c = ground arith

pub to_lower_idem : (s : Text) → to_lower (to_lower s) ≡ to_lower s
unfolding to_lower
to_lower_idem [] = refl
to_lower_idem (c ∷ s) = unfold to_lower in cc (lower_byte_idem c, to_lower_idem s)

trim_left-to_lower : (s : Text) → trim_left (to_lower s) ≡ to_lower (trim_left s)
unfolding trim_left to_lower
trim_left-to_lower [] = refl
trim_left-to_lower (c ∷ s) = ground (arith, is_space-lower_byte c, trim_left-to_lower s)

is_nil-to_lower : (s : Text) → is_nil (to_lower s) ≡ is_nil s
unfolding to_lower
is_nil-to_lower [] = refl
is_nil-to_lower (c ∷ s) = refl

trim_right-to_lower : (s : Text) → trim_right (to_lower s) ≡ to_lower (trim_right s)
unfolding trim_right to_lower
trim_right-to_lower [] = refl
trim_right-to_lower (c ∷ s) =
    ground (arith, is_space-lower_byte c, trim_right-to_lower s, is_nil-to_lower (trim_right s))

pub trim_space-to_lower : (s : Text) → trim_space (to_lower s) ≡ to_lower (trim_space s)
unfolding trim_space
trim_space-to_lower s = cc (trim_left-to_lower s, trim_right-to_lower (trim_left s))

trim_left_idem : (s : Text) → trim_left (trim_left s) ≡ trim_left s
unfolding trim_left
trim_left_idem [] = refl
trim_left_idem (c ∷ s) = ground (arith, trim_left_idem s)

trim_right_idem : (s : Text) → trim_right (trim_right s) ≡ trim_right s
unfolding trim_right
trim_right_idem [] = refl
trim_right_idem (c ∷ s) = ground (arith, trim_right_idem s)

trim_left-trim_right : (s : Text) → trim_left (trim_right s) ≡ trim_right (trim_left s)
unfolding trim_left trim_right
trim_left-trim_right [] = refl
trim_left-trim_right (c ∷ s) = ground (arith, trim_left-trim_right s)

pub trim_space_idem : (s : Text) → trim_space (trim_space s) ≡ trim_space s
unfolding trim_space
trim_space_idem s =
    cc (trim_left-trim_right (trim_left s), trim_left_idem s, trim_right_idem (trim_left s))

-- No byte is added by trimming, and only letters change in lower case.
trim_left-All {κ} : (P : ℕ → Type κ) (s : Text) → All P s → All P (trim_left s)
unfolding trim_left
trim_left-All P [] h = h
trim_left-All P (c ∷ s) h = elim (Bool-cases (is_space c)) [
  | inl e ↦ rw e (trim_left-All P s h.1)
  | inr e ↦ rw e h
]

trim_right-All {κ} : (P : ℕ → Type κ) (s : Text) → All P s → All P (trim_right s)
unfolding trim_right
trim_right-All P [] h = h
trim_right-All P (c ∷ s) h = elim (Bool-cases (is_nil (trim_right s) && is_space c)) [
  | inl e ↦ rw e tt
  | inr e ↦ rw e (h.0, trim_right-All P s h.1)
]

pub trim_space-All {κ} : (P : ℕ → Type κ) (s : Text) → All P s → All P (trim_space s)
unfolding trim_space
trim_space-All P s h = trim_right-All P (trim_left s) (trim_left-All P s h)

pub to_lower-Lacks : (b : ℕ) (s : Text) → b ≤ 64 → Lacks b s → Lacks b (to_lower s)
unfolding to_lower lower_byte
to_lower-Lacks b [] low h = h
to_lower-Lacks b (c ∷ s) low h = (ground (arith, h.0), to_lower-Lacks b s low h.1)

-- Two texts without `b`, each followed by `b`, agree with what follows exactly if they are equal.
pub append_at_inj :
    (b : ℕ) (s t x y : Text) → Lacks b s → Lacks b t → s ++ b ∷ x ≡ t ++ b ∷ y → (s ≡ t) × (x ≡ y)
append_at_inj b [] [] x y hs ht e = ground arith
append_at_inj b [] (d ∷ t) x y hs ht e = absurd (ht.0 (cc))
append_at_inj b (c ∷ s) [] x y hs ht e = absurd (hs.0 (cc))
append_at_inj b (c ∷ s) (d ∷ t) x y hs ht e =
    let (p, q) = append_at_inj b s t x y hs.1 ht.1 (ground arith) in (ground arith, q)

-- The first cut is at the byte that is written, if none stands before it.
pub cut_byte-append : (b : ℕ) (s x : Text) → Lacks b s → cut_byte b (s ++ b ∷ x) ≡ some (s, x)
unfolding cut_byte
cut_byte-append b [] x h = ground arith
cut_byte-append b (c ∷ s) x h = ground (arith, h.0, cut_byte-append b s x h.1)

cut_last-Lacks : (b : ℕ) (s : Text) → Lacks b s → cut_last b s ≡ none
unfolding cut_last
cut_last-Lacks b [] h = refl
cut_last-Lacks b (c ∷ s) h = rw (cut_last-Lacks b s h.1, cut_last) (ground (arith, h.0))

-- The last cut is at the byte that is written, if none stands behind it.
pub cut_last-append : (b : ℕ) (s x : Text) → Lacks b x → cut_last b (s ++ b ∷ x) ≡ some (s, x)
unfolding cut_last
cut_last-append b [] x h = rw (cut_last-Lacks b x h, cut_last) (ground arith)
cut_last-append b (c ∷ s) x h = rw (cut_last-append b s x h, cut_last) refl

pub has_prefix-append : (p s : Text) → has_prefix (p ++ s) p ≡ true
unfolding has_prefix
has_prefix-append [] [] = refl
has_prefix-append [] (c ∷ s) = refl
has_prefix-append (c ∷ p) s = ground (arith, has_prefix-append p s)

pub drop-append : (p s : Text) → drop (length p) (p ++ s) ≡ s
drop-append [] s = refl
drop-append (c ∷ p) s = drop-append p s

trim_left-length : (s : Text) → length (trim_left s) ≤ length s
unfolding trim_left
trim_left-length [] = omega arith
trim_left-length (c ∷ s) = ground (arith, trim_left-length s)

trim_right-length : (s : Text) → length (trim_right s) ≤ length s
unfolding trim_right
trim_right-length [] = omega arith
trim_right-length (c ∷ s) = ground (arith, trim_right-length s)

-- Trimming makes no text longer.
pub trim_space-length : (s : Text) → length (trim_space s) ≤ length s
unfolding trim_space
trim_space-length s = omega (arith, trim_left-length s, trim_right-length (trim_left s))

trim_right-append : (s t : Text) → trim_right t ≡ t → t ≢ [] → trim_right (s ++ t) ≡ s ++ t
unfolding trim_right
trim_right-append [] t h ne = h
trim_right-append (c ∷ s) [] h ne = absurd (ne refl)
trim_right-append (c ∷ s) (d ∷ t) h ne =
    rw (trim_right-append s (d ∷ t) h ne) (append-is_nil s c d t)
  where
    append-is_nil :
        (u : Text) (a b : ℕ) (v : Text)
        → (if is_nil (u ++ b ∷ v) && is_space a then [] else a ∷ (u ++ b ∷ v)) ≡ a ∷ (u ++ b ∷ v)
    append-is_nil [] a b v = refl
    append-is_nil (x ∷ u) a b v = refl

trim_right_of_trimmed : (t : Text) → trim_space t ≡ t → trim_right t ≡ t
unfolding trim_space
trim_right_of_trimmed t h = cc (trim_right_idem (trim_left t), h)

-- A text that begins with no blank and ends in a trimmed text is trimmed.
pub trim_space_append :
    (c : ℕ) (s t : Text)
    → is_space c ≡ false
    → trim_space t ≡ t
    → t ≢ []
    → trim_space (c ∷ (s ++ t)) ≡ c ∷ (s ++ t)
unfolding trim_space trim_left
trim_space_append c s t e h ne = rw e (trim_right-append (c ∷ s) t (trim_right_of_trimmed t h) ne)

pub trim_prefix-append : (p s : Text) → trim_prefix (p ++ s) p ≡ s
unfolding trim_prefix
trim_prefix-append p s = rw (has_prefix-append p s) (drop-append p s)

pub is_nil_append : (s : Text) (c : ℕ) (t : Text) → is_nil (s ++ c ∷ t) ≡ false
is_nil_append [] c t = refl
is_nil_append (d ∷ s) c t = refl

pub is_nil-append : (s t : Text) → is_nil s ≡ false → is_nil (s ++ t) ≡ false
is_nil-append [] t h = ground arith
is_nil-append (c ∷ s) t h = refl

pub split-Lacks : (b : ℕ) (s : Text) → Lacks b s → split s b ≡ s ∷ []
unfolding split add_head
split-Lacks b [] h = refl
split-Lacks b (c ∷ s) h = rw (split-Lacks b s h.1, split) (ground (arith, h.0))

-- The first part ends at the first separator.
pub split-append : (b : ℕ) (s x : Text) → Lacks b s → split (s ++ b ∷ x) b ≡ s ∷ split x b
unfolding split add_head
split-append b [] x h = ground arith
split-append b (c ∷ s) x h = rw (split-append b s x h.1, split) (ground (arith, h.0))

join-add_head :
    (c b : ℕ) (ps : List Text) → ps ≢ [] → join (add_head c ps) (b ∷ []) ≡ c ∷ join ps (b ∷ [])
unfolding join add_head
join-add_head c b [] h = absurd (h refl)
join-add_head c b (p ∷ []) h = refl
join-add_head c b (p ∷ q ∷ ps) h = refl

join_nil_head : (b : ℕ) (ps : List Text) → ps ≢ [] → join ([] ∷ ps) (b ∷ []) ≡ b ∷ join ps (b ∷ [])
unfolding join
join_nil_head b [] h = absurd (h refl)
join_nil_head b (p ∷ ps) h = refl

split_ne : (s : Text) (b : ℕ) → split s b ≢ []
unfolding split add_head
split_ne [] b = λ e. ground arith
split_ne (c ∷ s) b =
    if_lem (λ ps. ps ≢ []) (eqb c b) (λ t e. ground arith) (λ f. add_head_ne c (split s b))
  where
    add_head_ne : (d : ℕ) (ps : List Text) → add_head d ps ≢ []
    add_head_ne d [] e = ground arith
    add_head_ne d (p ∷ ps) e = ground arith

-- The parts joined are the text.
pub join-split : (s : Text) (b : ℕ) → join (split s b) (b ∷ []) ≡ s
unfolding split join
join-split [] b = refl
join-split (c ∷ s) b =
    let ne = split_ne s b in
    let rest = join-split s b in
    if_lem (λ ps. join ps (b ∷ []) ≡ c ∷ s) (eqb c b)
      (λ t. rw (join_nil_head b (split s b) ne, rest) (ground (arith, t)))
      (λ f. rw (join-add_head c b (split s b) ne, rest) refl)

-- No part has the separator.
pub split-All-Lacks : (b : ℕ) (s : Text) → All (Lacks b) (split s b)
unfolding split
split-All-Lacks b [] = (tt, tt)
split-All-Lacks b (c ∷ s) =
    let rest = split-All-Lacks b s in
    if_lem (All (Lacks b)) (eqb c b) (λ t. (tt, rest))
      λ f. add_head-All-Lacks (split s b) (λ e. ground (arith, e, f)) rest
  where
    add_head-All-Lacks : (ps : List Text) → c ≢ b → All (Lacks b) ps → All (Lacks b) (add_head c ps)
    add_head-All-Lacks [] ne h = ((ne, tt), tt)
    add_head-All-Lacks (p ∷ ps) ne h = ((ne, h.0), h.1)

-- A test for literals.
unfoldable pub has_byte : ℕ → Text → Bool
has_byte b [] = false
has_byte b (c ∷ s) = eqb c b || has_byte b s

pub has_byte-Lacks : (b : ℕ) (s : Text) → has_byte b s ≡ false → Lacks b s
unfolding has_byte
has_byte-Lacks b [] h = tt
has_byte-Lacks b (c ∷ s) h = ((λ e. ground (arith, e)), has_byte-Lacks b s (ground arith))
