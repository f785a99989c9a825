-- ===== src/Sigv4/Encoding/Laws.antt =====
-- Laws of uriEncodeAWSSigV4 of internal/sigv4/canonical_query.go.
use twister_aws.Base.{
  ℕ, ◌<◌, ◌/◌, ◌%◌, ◌+◌, ◌*◌, sym, Text, Lacks, All, ◌≡◌, refl, ap, ◌≢◌, true, false, [], ◌∷◌,
  arith, if_lem,
}
use twister_aws.Sigv4.Encoding.{is_unreserved, upper_hex, uri_encode, upper_value, percent_decode}

-- What is in the range of Go's `byte`.
abbrev pub Bytes : Text → Type 0
Bytes = All (λ c. c < 256)

is_unreserved-upper_hex : (d : ℕ) → d < 16 → is_unreserved (upper_hex d) ≡ true
unfolding is_unreserved upper_hex
is_unreserved-upper_hex d h = ground arith

upper_value-upper_hex : (d : ℕ) → d < 16 → upper_value (upper_hex d) ≡ d
unfolding upper_value upper_hex
upper_value-upper_hex d h = ground arith

upper_hex-ne : (b d : ℕ) → is_unreserved b ≡ false → d < 16 → upper_hex d ≢ b
upper_hex-ne b d e h q =
    let t : is_unreserved b ≡ true = rw (sym q) (is_unreserved-upper_hex d h) in
    ground (arith, e, t)

-- A byte that is written as a code stands nowhere in what is encoded, but for the percent sign.
pub uri_encode-Lacks :
    (b : ℕ) (s : Text) → is_unreserved b ≡ false → b ≢ b'%' → Bytes s → Lacks b (uri_encode s)
unfolding uri_encode
uri_encode-Lacks b [] e p h = tt
uri_encode-Lacks b (c ∷ s) e p h =
    let rest = uri_encode-Lacks b s e p h.1 in
    if_lem (Lacks b) (is_unreserved c) (λ t. (λ q. ground (arith, q, e, t), rest))
      λ f. (
        λ q. p (sym q),
        (
          upper_hex-ne b (c / 16) e (omega (arith, h.0)),
          (upper_hex-ne b (c % 16) e (omega arith), rest),
        ),
      )

percent_decode_code :
    (c d : ℕ) (s : Text)
    → percent_decode (b'%' ∷ c ∷ d ∷ s) ≡ (upper_value c * 16 + upper_value d) ∷ percent_decode s
unfolding percent_decode
percent_decode_code c d s = refl

percent_decode_other : (c : ℕ) (s : Text) → c ≢ b'%' → percent_decode (c ∷ s) ≡ c ∷ percent_decode s
unfolding percent_decode
percent_decode_other c [] h = refl
percent_decode_other c (d ∷ []) h = refl
percent_decode_other c (d ∷ e ∷ s) h = ground (arith, h)

percent_decode_end : percent_decode [] ≡ []
unfolding percent_decode
percent_decode_end = refl

unreserved_ne : (c : ℕ) → is_unreserved c ≡ true → c ≢ b'%'
unfolding is_unreserved
unreserved_ne c h q = ground arith

-- Encoding is undone by decoding.
pub percent_decode-uri_encode : (s : Text) → Bytes s → percent_decode (uri_encode s) ≡ s
unfolding uri_encode
percent_decode-uri_encode [] h = percent_decode_end
percent_decode-uri_encode (c ∷ s) h =
    let rest = percent_decode-uri_encode s h.1 in
    let high = upper_value-upper_hex (c / 16) (omega (arith, h.0)) in
    let low = upper_value-upper_hex (c % 16) (omega arith) in
    if_lem (λ t. percent_decode t ≡ c ∷ s) (is_unreserved c)
      (λ t. rw (percent_decode_other c (uri_encode s) (unreserved_ne c t), rest) refl)
      (λ f.
        rw
          (
            percent_decode_code (upper_hex (c / 16)) (upper_hex (c % 16)) (uri_encode s),
            rest,
            high,
            low,
          )
          (ap (λ d. d ∷ s) (omega arith)))
