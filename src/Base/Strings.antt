-- ===== src/Base/Strings.antt =====
-- What the program uses of Go's package `strings`, over bytes: case and blanks are those of ASCII.
pub mod Laws
pub mod Hex
use Prim.Native.Nat.{ℕ, zero, suc, ◌+◌, ◌-◌, ◌*◌, ◌/◌, ◌%◌}
use mathlib.Core.Option
use twister_aws.Base.Tests.{leb, ltb, eqb, if◌then◌else◌}
use twister_aws.Base.Lists.{is_nil, length, drop}
use twister_aws.Base.Texts.{Text, ◌==◌}
use mathlib.Core.Bool.{Bool, true, false, ◌&&◌, ◌||◌}
use mathlib.Core.Option.{Option, none, some}
use mathlib.Core.List.{List, [], ◌∷◌, ◌++◌, map}

-- tab, line feed, vertical tab, form feed, carriage return and the blank
unfoldable pub is_space : ℕ → Bool
is_space c = (leb 9 c && leb c 13) || eqb c 32

unfoldable pub lower_byte : ℕ → ℕ
lower_byte c = if leb b'A' c && leb c b'Z' then c + 32 else c

unfoldable pub to_lower : Text → Text
unfolding lower_byte
to_lower = map lower_byte

unfoldable pub to_upper : Text → Text
to_upper = map (λ c. if leb b'a' c && leb c b'z' then c - 32 else c)

unfoldable pub trim_left : Text → Text
unfolding is_space
trim_left [] = []
trim_left (c ∷ s) = if is_space c then trim_left s else c ∷ s

unfoldable pub trim_right : Text → Text
unfolding is_space
trim_right [] = []
trim_right (c ∷ s) = let r = trim_right s in if is_nil r && is_space c then [] else c ∷ r

-- strings.TrimSpace
unfoldable pub trim_space : Text → Text
unfolding trim_left trim_right
trim_space s = trim_right (trim_left s)

-- strings.EqualFold
unfoldable pub equal_fold : Text → Text → Bool
unfolding to_lower
equal_fold s t = to_lower s == to_lower t

unfoldable pub has_prefix : Text → Text → Bool
has_prefix s [] = true
has_prefix [] (p ∷ ps) = false
has_prefix (c ∷ s) (p ∷ ps) = eqb c p && has_prefix s ps

-- strings.TrimPrefix
unfoldable pub trim_prefix : Text → Text → Text
unfolding has_prefix
trim_prefix s p = if has_prefix s p then drop (length p) s else s

-- strings.HasSuffix, over the reversed bytes
unfoldable pub has_suffix : Text → Text → Bool
unfolding has_prefix
has_suffix s p = leb (length p) (length s) && (drop (length s - length p) s == p)

-- What stands before and behind the first `b`, if there is one (strings.IndexByte and two slices).
unfoldable pub cut_byte : ℕ → Text → Option (Text × Text)
cut_byte b [] = none
cut_byte b (c ∷ s) =
    let rest = cut_byte b s in
    if eqb c b then some ([], s) else Option.map (λ p. (c ∷ p.0, p.1)) rest

-- The same at the last `b` (strings.LastIndex and two slices).
unfoldable pub cut_last : ℕ → Text → Option (Text × Text)
cut_last b [] = none
cut_last b (c ∷ s) = elim (cut_last b s) [
  | some p ↦ some (c ∷ p.0, p.1)
  | none ↦ if eqb c b then some ([], s) else none
]

-- What stands behind the first place where `p` stands (strings.Index and a slice).
unfoldable pub after_first : Text → Text → Option Text
unfolding has_prefix
after_first p [] = if is_nil p then some [] else none
after_first p (c ∷ s) =
    let rest = after_first p s in
    if has_prefix (c ∷ s) p then some (drop (length p) (c ∷ s)) else rest

-- strings.SplitN(s, sep, n) for a separator of one byte: at most `n` parts, where 1 ≤ n.
unfoldable pub split_n : ℕ → Text → ℕ → List Text
unfolding cut_byte
split_n b s zero = []
split_n b s (suc zero) = s ∷ []
split_n b s (suc (suc k)) = elim (cut_byte b s) [
  | none ↦ s ∷ []
  | some p ↦ p.0 ∷ split_n b p.1 (suc k)
]

-- A byte in front of the first part.
unfoldable pub add_head : ℕ → List Text → List Text
add_head c [] = (c ∷ []) ∷ []
add_head c (p ∷ ps) = (c ∷ p) ∷ ps

-- strings.Split(s, sep) for a separator of one byte.
unfoldable pub split : Text → ℕ → List Text
unfolding add_head
split [] b = [] ∷ []
split (c ∷ s) b = let rest = split s b in if eqb c b then [] ∷ rest else add_head c rest

-- strings.Fields
unfoldable pub fields : Text → List Text
unfolding is_space add_head
fields [] = []
fields (c ∷ []) = if is_space c then [] else (c ∷ []) ∷ []
fields (c ∷ d ∷ s) =
    let rest = fields (d ∷ s) in
    if is_space c then rest else if is_space d then (c ∷ []) ∷ rest else add_head c rest

-- strings.Join
unfoldable pub join : List Text → Text → Text
join [] sep = []
join (p ∷ ps) sep = let rest = join ps sep in if is_nil ps then p else p ++ (sep ++ rest)

-- hex.EncodeToString
unfoldable pub hex_digit : ℕ → ℕ
hex_digit d = if ltb d 10 then b'0' + d else b'a' + (d - 10)

unfoldable pub hex_encode : Text → Text
unfolding hex_digit
hex_encode [] = []
hex_encode (c ∷ s) = hex_digit (c / 16) ∷ hex_digit (c % 16) ∷ hex_encode s

-- A digit that hex.DecodeString reads.
unfoldable pub is_hex_digit : ℕ → Bool
is_hex_digit c =
    (leb b'0' c && leb c b'9') || (leb b'a' c && leb c b'f') || (leb b'A' c && leb c b'F')

unfoldable pub all_hex : Text → Bool
unfolding is_hex_digit
all_hex [] = true
all_hex (c ∷ s) = is_hex_digit c && all_hex s

-- A cell that csv.Writer wrote, as csv.Reader gives it back: the pair CR LF comes back as LF.
unfoldable pub read_back : Text → Text
read_back [] = []
read_back (c ∷ []) = c ∷ []
read_back (c ∷ d ∷ s) =
    let rest = read_back (d ∷ s) in if eqb c 13 && eqb d 10 then rest else c ∷ rest

-- The number that a hexadecimal digit stands for.
unfoldable pub hex_value : ℕ → ℕ
hex_value c = if leb b'a' c then c - b'a' + 10 else if leb b'A' c then c - b'A' + 10 else c - b'0'

-- hex.DecodeString
unfoldable pub hex_decode : Text → Option Text
unfolding is_hex_digit hex_value
hex_decode [] = some []
hex_decode (c ∷ []) = none
hex_decode (c ∷ d ∷ s) =
    let rest = hex_decode s in
    if is_hex_digit c && is_hex_digit d
    then Option.map (λ t. (hex_value c * 16 + hex_value d) ∷ t) rest
    else none
