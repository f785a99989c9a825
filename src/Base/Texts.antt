-- ===== src/Base/Texts.antt =====
-- Text as the list of its bytes, as in Go, with literals, equality and order.
use Prim.Native.Char.{code}
use Prim.Native.String.{String}
use Prim.Native.Nat.{ℕ}
use mathlib.Core.Path.{◌≡◌, refl}
use mathlib.Core.Logic.{◌↔◌, ◌≢◌}
use mathlib.Core.Bool.{Bool, true, false, ◌&&◌}
use mathlib.Core.List.{List, [], ◌∷◌}
use native.Mathlib.Omega.{arith}
use twister_aws.Base.Tests.{eqb, ltb, if◌then◌else◌}
use twister_aws.Base.Lists.{All}

abbrev pub Text : Type 0
Text = List ℕ

-- The code points of a literal, which are its bytes when it is ASCII.
abbrev pub codes : String → Text
codes String.[] = []
codes (String.◌∷◌ c s) = code c ∷ codes s

infix 50 ◌==◌
unfoldable pub ◌==◌ : Text → Text → Bool
[] == [] = true
[] == (d ∷ t) = false
(c ∷ s) == [] = false
(c ∷ s) == (d ∷ t) = eqb c d && s == t

-- Go's order of strings, byte by byte.
unfoldable pub lt_text : Text → Text → Bool
lt_text s [] = false
lt_text [] (d ∷ t) = true
lt_text (c ∷ s) (d ∷ t) =
    let rest = lt_text s t in if ltb c d then true else if ltb d c then false else rest

eq_of_text : (s t : Text) → (s == t) ≡ true → s ≡ t
unfolding ◌==◌
eq_of_text [] [] h = refl
eq_of_text [] (d ∷ t) h = ground arith
eq_of_text (c ∷ s) [] h = ground arith
eq_of_text (c ∷ s) (d ∷ t) h = ground (arith, eq_of_text s t)

pub eq_refl : (s : Text) → (s == s) ≡ true
unfolding ◌==◌
eq_refl [] = refl
eq_refl (c ∷ s) = ground (arith, eq_refl s)

-- The test decides equality.
pub eq_iff : (s t : Text) → ((s == t) ≡ true) ↔ (s ≡ t)
eq_iff s t = (eq_of_text s t, λ e. ground (arith, eq_refl s))

-- No byte of the text is `b`.
abbrev pub Lacks : ℕ → Text → Type 0
Lacks b = All (λ c. c ≢ b)

pub eq_of_ne : (s t : Text) → s ≢ t → (s == t) ≡ false
eq_of_ne s t h = ground (arith, eq_iff s t)

pub eq_of_eq : (s t : Text) → s ≡ t → (s == t) ≡ true
eq_of_eq s t h = (eq_iff s t).1 h
