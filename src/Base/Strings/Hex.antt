-- ===== src/Base/Strings/Hex.antt =====
-- The hexadecimal writer and reader of Go's encoding/hex.
use twister_aws.Base.Lists.{All}
use twister_aws.Base.Texts.{Text, Lacks}
use twister_aws.Base.Strings.{
  is_space, lower_byte, to_lower, trim_left, trim_right, trim_space, hex_digit, hex_encode,
  is_hex_digit, hex_value, hex_decode,
}
use Prim.Native.Nat.{ℕ, ◌<◌, ◌/◌, ◌%◌}
use native.Mathlib.Omega.{arith}
use mathlib.Core.Path.{◌≡◌, refl, ap}
use mathlib.Core.Logic.{◌≢◌}
use mathlib.Core.Bool.{false, true}
use mathlib.Core.Option.{some}
use mathlib.Core.List.{[], ◌∷◌}

record IsDigitOf (d c : ℕ) : Type 0 where
  pub lower : lower_byte c ≡ c
  pub digit : is_hex_digit c ≡ true
  pub value : hex_value c ≡ d
  pub no_blank : is_space c ≡ false
  pub no_comma : c ≢ b','

hex_digit-IsDigitOf : (d : ℕ) → d < 16 → IsDigitOf d (hex_digit d)
unfolding hex_digit lower_byte is_hex_digit hex_value is_space
hex_digit-IsDigitOf d h = record {
  lower = ground arith;
  digit = ground arith;
  value = ground arith;
  no_blank = ground arith;
  no_comma = λ e. ground (arith, e);
}

-- What is written as hexadecimal is read back, in any case of the letters.
pub hex_decode-hex_encode :
    (s : Text) → All (λ c. c < 256) s → hex_decode (to_lower (hex_encode s)) ≡ some s
unfolding hex_encode to_lower hex_decode
hex_decode-hex_encode [] h = refl
hex_decode-hex_encode (c ∷ s) h =
    let high = hex_digit-IsDigitOf (c / 16) (omega (arith, h.0)) in
    let low = hex_digit-IsDigitOf (c % 16) (omega arith) in
    rw
      (
        high.lower,
        low.lower,
        high.digit,
        low.digit,
        high.value,
        low.value,
        hex_decode-hex_encode s h.1,
      )
      (ap (λ d. some (d ∷ s)) (omega arith))

pub hex_encode-no_blank :
    (s : Text) → All (λ c. c < 256) s → All (λ c. is_space c ≡ false) (hex_encode s)
unfolding hex_encode
hex_encode-no_blank [] h = tt
hex_encode-no_blank (c ∷ s) h = (
  (hex_digit-IsDigitOf (c / 16) (omega (arith, h.0))).no_blank,
  ((hex_digit-IsDigitOf (c % 16) (omega arith)).no_blank, hex_encode-no_blank s h.1),
)

pub hex_encode-Lacks : (s : Text) → All (λ c. c < 256) s → Lacks b',' (hex_encode s)
unfolding hex_encode
hex_encode-Lacks [] h = tt
hex_encode-Lacks (c ∷ s) h = (
  (hex_digit-IsDigitOf (c / 16) (omega (arith, h.0))).no_comma,
  ((hex_digit-IsDigitOf (c % 16) (omega arith)).no_comma, hex_encode-Lacks s h.1),
)

trim_right_no_blank : (s : Text) → All (λ c. is_space c ≡ false) s → trim_right s ≡ s
unfolding trim_right
trim_right_no_blank [] h = refl
trim_right_no_blank (c ∷ s) h = rw (trim_right_no_blank s h.1, h.0, trim_right) (ground arith)

-- A text without blanks is trimmed.
pub trim_space_no_blank : (s : Text) → All (λ c. is_space c ≡ false) s → trim_space s ≡ s
unfolding trim_space trim_left
trim_space_no_blank [] h = trim_right_no_blank [] h
trim_space_no_blank (c ∷ s) h = rw h.0 (trim_right_no_blank (c ∷ s) h)
