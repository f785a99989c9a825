-- ===== src/Sigv4/Query/Reading.antt =====
-- canonicalQueryV4 of internal/sigv4/canonical_query.go, read back by a reader of queries.
use twister_aws.Base.{
  append-nil, All-append, Text, Map, All, ◌≡◌, refl, false, List, [], ◌∷◌, ◌++◌, map, is_nil, arith,
  if◌then◌else◌, none, some, Lacks,
}
use twister_aws.Base.Strings.{split, cut_byte}
use twister_aws.Base.Strings.Laws.{
  cut_byte-append, split-Lacks, split-append, is_nil_append, is_nil-append,
}
use twister_aws.Base.Sort.{sort_with}
use twister_aws.Base.Sort.Perm.{sort_with-All}
use twister_aws.Sigv4.Encoding.{uri_encode, percent_decode, is_unreserved}
use twister_aws.Sigv4.Encoding.Laws.{Bytes, uri_encode-Lacks, percent_decode-uri_encode}
use twister_aws.Sigv4.Query.{
  Pair, pairs_of, pairs, lt_pair, encode_pair, write_pairs, canonical_query,
}

-- What stands on the two sides of the first `=`.
unfoldable pub read_pair : Text → Pair
read_pair t = elim (cut_byte b'=' t) [
  | none ↦ record { k = percent_decode t; v = [] }
  | some p ↦ record { k = percent_decode p.0; v = percent_decode p.1 }
]

unfoldable pub read_query : Text → List Pair
read_query t = if is_nil t then [] else map read_pair (split t b'&')

abbrev IsBytes : Pair → Type 0
IsBytes p = Bytes p.k × Bytes p.v

-- The names and the values are bytes.
abbrev pub AreBytes : Map (List Text) → Type 0
AreBytes = All (λ e. Bytes e.0 × All Bytes e.1)

read_pair-encode_pair : (p : Pair) → IsBytes p → read_pair (encode_pair p) ≡ p
unfolding read_pair encode_pair is_unreserved
read_pair-encode_pair p h =
    rw
      (
        read_pair,
        encode_pair,
        cut_byte-append b'=' (uri_encode p.k) (uri_encode p.v)
            (uri_encode-Lacks b'=' p.k refl (λ q. ground arith) h.0),
        percent_decode-uri_encode p.k h.0,
        percent_decode-uri_encode p.v h.1,
      )
      refl

encode_pair-Lacks : (p : Pair) → IsBytes p → Lacks b'&' (encode_pair p)
unfolding encode_pair is_unreserved
encode_pair-Lacks p h =
    All-append _ (uri_encode p.k) (b'=' ∷ uri_encode p.v)
      (uri_encode-Lacks b'&' p.k refl (λ q. ground arith) h.0)
      ((λ q. ground arith), uri_encode-Lacks b'&' p.v refl (λ q. ground arith) h.1)

write_pairs_one : (p : Pair) → write_pairs (p ∷ []) ≡ encode_pair p
unfolding write_pairs
write_pairs_one p = append-nil (encode_pair p)

write_pairs_more :
    (p q : Pair) (ps : List Pair)
    → write_pairs (p ∷ q ∷ ps) ≡ encode_pair p ++ b'&' ∷ write_pairs (q ∷ ps)
unfolding write_pairs
write_pairs_more p q ps = refl

write_pairs-is_nil : (p : Pair) (ps : List Pair) → is_nil (write_pairs (p ∷ ps)) ≡ false
unfolding write_pairs encode_pair
write_pairs-is_nil p ps =
    is_nil-append (encode_pair p) (if is_nil ps then [] else b'&' ∷ write_pairs ps)
      (is_nil_append (uri_encode p.k) b'=' (uri_encode p.v))

read_written :
    (p : Pair) (ps : List Pair)
    → All IsBytes (p ∷ ps)
    → map read_pair (split (write_pairs (p ∷ ps)) b'&') ≡ p ∷ ps
read_written p [] h =
    rw
      (
        write_pairs_one p,
        split-Lacks b'&' (encode_pair p) (encode_pair-Lacks p h.0),
        read_pair-encode_pair p h.0,
      )
      refl
read_written p (q ∷ ps) h =
    rw
      (
        write_pairs_more p q ps,
        split-append b'&' (encode_pair p) (write_pairs (q ∷ ps)) (encode_pair-Lacks p h.0),
        read_written q ps h.1,
        read_pair-encode_pair p h.0,
      )
      refl

read_query-write_pairs : (ps : List Pair) → All IsBytes ps → read_query (write_pairs ps) ≡ ps
unfolding read_query write_pairs
read_query-write_pairs [] h = refl
read_query-write_pairs (p ∷ ps) h = rw (write_pairs-is_nil p ps, read_query) (read_written p ps h)

pairs_of-IsBytes :
    (name : Text) (values : List Text)
    → Bytes name
    → All Bytes values
    → All IsBytes (pairs_of name values)
unfolding pairs_of
pairs_of-IsBytes name [] h k = tt
pairs_of-IsBytes name (val ∷ values) h k = ((h, k.0), pairs_of-IsBytes name values h k.1)

pairs-IsBytes : (v : Map (List Text)) → AreBytes v → All IsBytes (pairs v)
unfolding pairs
pairs-IsBytes [] h = tt
pairs-IsBytes (e ∷ v) h =
    All-append _ (pairs_of e.0 e.1) (pairs v) (pairs_of-IsBytes e.0 e.1 h.0.0 h.0.1)
      (pairs-IsBytes v h.1)

-- If every name and value consists of bytes, the canonical query is read back, by splitting it at `&`
-- and at the first `=` of each part and by percent-decoding the two sides, as the list of all pairs of
-- a name and one of its values, sorted by name and then by value. No pair is lost, merged or changed.
pub read_query-canonical_query :
    (v : Map (List Text))
    → AreBytes v
    → read_query (canonical_query v) ≡ sort_with lt_pair (pairs v)
unfolding canonical_query read_query sort_with pairs
read_query-canonical_query [] h = refl
read_query-canonical_query (e ∷ v) h =
    read_query-write_pairs (sort_with lt_pair (pairs (e ∷ v)))
      (sort_with-All lt_pair IsBytes (pairs (e ∷ v)) (pairs-IsBytes (e ∷ v) h))
