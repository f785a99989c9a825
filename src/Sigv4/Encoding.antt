-- ===== src/Sigv4/Encoding.antt =====
-- uriEncodeAWSSigV4 of internal/sigv4/canonical_query.go, and the reader that undoes it.
pub mod Laws
use twister_aws.Base.{
  ℕ, ◌+◌, ◌-◌, ◌*◌, ◌/◌, ◌%◌, Text, Bool, ◌&&◌, ◌||◌, Option, none, some, [], ◌∷◌, leb, ltb, eqb,
  if◌then◌else◌,
}
use mathlib.Core.Option

unfoldable pub is_unreserved : ℕ → Bool
is_unreserved c =
    (leb b'A' c && leb c b'Z')
    || ((leb b'a' c && leb c b'z')
        || ((leb b'0' c && leb c b'9')
            || (eqb c b'-' || (eqb c b'_' || (eqb c b'.' || eqb c b'~')))))

-- The digit of "0123456789ABCDEF" at an index below 16.
unfoldable pub upper_hex : ℕ → ℕ
upper_hex d = if ltb d 10 then b'0' + d else b'A' + (d - 10)

unfoldable pub uri_encode : Text → Text
unfolding is_unreserved upper_hex
uri_encode [] = []
uri_encode (c ∷ s) =
    let rest = uri_encode s in
    if is_unreserved c then c ∷ rest else b'%' ∷ upper_hex (c / 16) ∷ upper_hex (c % 16) ∷ rest

-- The value of an upper-case hexadecimal digit.
unfoldable pub upper_value : ℕ → ℕ
upper_value c = if leb b'A' c then c - b'A' + 10 else c - b'0'

-- A reader of percent-encoded text: a `%` and two digits are the byte of that value.
unfoldable pub percent_decode : Text → Text
unfolding upper_value
percent_decode [] = []
percent_decode (c ∷ []) = c ∷ []
percent_decode (c ∷ d ∷ []) = c ∷ d ∷ []
percent_decode (c ∷ d ∷ e ∷ s) =
    let after = percent_decode s in
    let next = percent_decode (d ∷ e ∷ s) in
    if eqb c b'%' then (upper_value d * 16 + upper_value e) ∷ after else c ∷ next
