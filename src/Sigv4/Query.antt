-- ===== src/Sigv4/Query.antt =====
-- canonicalQueryV4 of internal/sigv4/canonical_query.go.
pub mod Order
pub mod Reading
use twister_aws.Base.{
  Text, Map, Bool, List, [], ◌∷◌, ◌++◌, map, ◌==◌, lt_text, if◌then◌else◌, is_nil,
}
use twister_aws.Base.Sort.{sort_with}
use twister_aws.Sigv4.Encoding.{uri_encode}

pub record Pair : Type 0 where
  pub k : Text
  pub v : Text

-- The two loops that collect the pairs.
unfoldable pub pairs_of : Text → List Text → List Pair
pairs_of name values = map (λ val. record { k = name; v = val }) values

unfoldable pub pairs : Map (List Text) → List Pair
pairs [] = []
pairs (entry ∷ rest) = pairs_of entry.0 entry.1 ++ pairs rest

-- The less function of sort.Slice.
unfoldable pub lt_pair : Pair → Pair → Bool
lt_pair p q = if p.k == q.k then lt_text p.v q.v else lt_text p.k q.k

unfoldable pub encode_pair : Pair → Text
encode_pair p = uri_encode p.k ++ b'=' ∷ uri_encode p.v

-- The loop that writes the pairs, with `&` in front of all but the first.
unfoldable pub write_pairs : List Pair → Text
write_pairs [] = []
write_pairs (p ∷ ps) =
    let rest = write_pairs ps in encode_pair p ++ (if is_nil ps then [] else b'&' ∷ rest)

unfoldable pub canonical_query : Map (List Text) → Text
canonical_query v = if is_nil v then [] else write_pairs (sort_with lt_pair (pairs v))
