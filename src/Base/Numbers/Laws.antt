-- ===== src/Base/Numbers/Laws.antt =====
-- strconv.Atoi reads back what strconv.Itoa prints.
use Prim.Native.Nat.{ℕ, zero, suc, ◌+◌, ◌-◌, ◌*◌, ◌/◌, ◌%◌, ◌^◌, ◌≤◌, ◌<◌}
use mathlib.Core.Path.{◌≡◌, refl, sym, subst}
use mathlib.Core.Bool.{true, false, ◌&&◌}
use mathlib.Core.Logic.{inl, inr}
use mathlib.Core.Option.{some}
use mathlib.Core.List.{[], ◌∷◌, ◌++◌}
use native.Mathlib.Omega.{arith}
use native.Mathlib.Numerals.{unary_clauses}
use twister_aws.Base.Tests.{leb, ltb, eqb, if◌then◌else◌, Bool-cases}
use twister_aws.Base.Texts.{Text}
use twister_aws.Base.Int.{pos}
use twister_aws.Base.Numbers.{digits_value, magnitude, atoi, decimal_digits, decimal}

digits_value-append :
    (acc v d : ℕ) (s : Text)
    → d < 10
    → digits_value acc s ≡ some v
    → digits_value acc (s ++ (b'0' + d) ∷ []) ≡ some (v * 10 + d)
unfolding digits_value
digits_value-append acc v d [] low h = ground arith
digits_value-append acc v d (c ∷ s) low h = elim (Bool-cases (leb b'0' c && leb c b'9')) [
  | inl t ↦
      let rest = digits_value-append (acc * 10 + (c - b'0')) v d s low (ground (arith, t, h)) in
      ground (arith, t, rest)
  | inr f ↦ ground (arith, f, h)
]

-- A text that begins with a digit.
pub record IsNumeral (s : Text) : Type 0 where
  pub head : ℕ
  pub tail : Text
  pub whole : s ≡ head ∷ tail
  pub low : 48 ≤ head
  pub high : head ≤ 57

IsNumeral-append : (s x : Text) → IsNumeral s → IsNumeral (s ++ x)
IsNumeral-append s x n = record {
  head = n.head;
  tail = n.tail ++ x;
  whole = rw n.whole refl;
  low = n.low;
  high = n.high;
}

-- What the digits of a number of at most suc k digits are.
record ReadsBack (k n : ℕ) : Type 0 where
  value : digits_value 0 (decimal_digits (suc k) n) ≡ some n
  numeral : IsNumeral (decimal_digits (suc k) n)

digits_small : (k n : ℕ) → n < 10 → decimal_digits (suc k) n ≡ (b'0' + n) ∷ []
unfolding decimal_digits
digits_small k n low = ground arith

digits_step :
    (k n : ℕ)
    → decimal_digits (suc k) n
      ≡ (if ltb n 10 then (b'0' + n) ∷ [] else decimal_digits k (n / 10) ++ (b'0' + n % 10) ∷ [])
unfolding decimal_digits
digits_step k n = refl

digits_large :
    (k n : ℕ)
    → 10 ≤ n
    → decimal_digits (suc (suc k)) n ≡ decimal_digits (suc k) (n / 10) ++ (b'0' + n % 10) ∷ []
digits_large k n big =
    let f : ltb n 10 ≡ false = ground (arith, big) in rw (digits_step (suc k) n, f) refl

small_value : (n : ℕ) → n < 10 → digits_value 0 ((b'0' + n) ∷ []) ≡ some n
unfolding digits_value
small_value n low = ground arith

one_digit : (k n : ℕ) → n < 10 → ReadsBack k n
one_digit k n low = record {
  value = rw (digits_small k n low) (small_value n low);
  numeral = record {
    head = b'0' + n;
    tail = [];
    whole = digits_small k n low;
    low = omega arith;
    high = omega (arith, low);
  };
}

less_front : (k n : ℕ) → n < 10 ^ suc (suc k) → n / 10 < 10 ^ suc k
less_front k n h =
    let e : 10 ^ suc (suc k) ≡ 10 ^ suc k * 10 = simp unary_clauses refl in omega (arith, h, e)

decimal_digits-ReadsBack : (k n : ℕ) → n < 10 ^ suc k → ReadsBack k n
decimal_digits-ReadsBack zero n h = one_digit 0 n (omega (arith, h))
decimal_digits-ReadsBack (suc k) n h = elim (Bool-cases (ltb n 10)) [
  | inl t ↦ one_digit (suc k) n (ground (arith, t))
  | inr f ↦
      let big : 10 ≤ n = ground (arith, f) in
      let front = decimal_digits-ReadsBack k (n / 10) (less_front k n h) in
      let last : n % 10 < 10 = omega arith in
      let shape = digits_large k n big in
      record {
        value = rw shape (
            subst
              (λ m.
                digits_value 0 (decimal_digits (suc k) (n / 10) ++ (b'0' + n % 10) ∷ []) ≡ some m)
              (omega arith) (digits_value-append 0 (n / 10) (n % 10) _ last front.value));
        numeral = subst IsNumeral (sym shape) (IsNumeral-append _ _ front.numeral);
      }
]

atoi_digits :
    (c : ℕ) (s : Text) (n : ℕ)
    → eqb c b'+' ≡ false
    → eqb c b'-' ≡ false
    → digits_value 0 (c ∷ s) ≡ some n
    → ltb n (2 ^ 63) ≡ true
    → atoi (c ∷ s) ≡ some (pos n)
unfolding atoi magnitude
atoi_digits c s n plus minus read fits = rw (minus, plus, read, fits) refl

atoi-IsNumeral :
    (s : Text) (n : ℕ)
    → IsNumeral s
    → digits_value 0 s ≡ some n
    → n < 2 ^ 63
    → atoi s ≡ some (pos n)
atoi-IsNumeral s n num h range =
    let plus : eqb num.head b'+' ≡ false = ground (arith, num.low) in
    let minus : eqb num.head b'-' ≡ false = ground (arith, num.low) in
    let read : digits_value 0 (num.head ∷ num.tail) ≡ some n =
      subst (λ t. digits_value 0 t ≡ some n) num.whole h in
    let fits : ltb n (2 ^ 63) ≡ true = ground (arith, range) in
    rw num.whole (atoi_digits num.head num.tail n plus minus read fits)

-- For the numbers of Go's int.
pub atoi-decimal : (n : ℕ) → n < 2 ^ 63 → atoi (decimal n) ≡ some (pos n)
unfolding decimal
atoi-decimal n range =
    let d = decimal_digits-ReadsBack 19 n (omega (arith, range)) in
    atoi-IsNumeral (decimal_digits 20 n) n d.numeral d.value range

pub decimal-IsNumeral : (n : ℕ) → n < 2 ^ 63 → IsNumeral (decimal n)
unfolding decimal
decimal-IsNumeral n range = (decimal_digits-ReadsBack 19 n (omega (arith, range))).numeral
