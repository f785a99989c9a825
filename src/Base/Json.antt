-- ===== src/Base/Json.antt =====
-- What encoding/json does to a text that it writes and reads back: bytes that are no UTF-8 become U+FFFD, and
-- all else is as it was. A string is bytes in Go, and the encoder goes by unicode/utf8.
use mathlib.Core.Path.{◌≡◌, refl}
use mathlib.Core.Bool.{Bool, ◌&&◌, ◌||◌}
use mathlib.Core.Option.{none, some}
use mathlib.Core.List.{List, [], ◌∷◌, ◌++◌}
use Prim.Native.Nat.{ℕ, zero, suc, ◌-◌, ◌<◌}
use native.Mathlib.Omega.{arith}
use twister_aws.Base.Tests.{eqb, leb, ltb, if◌then◌else◌}
use twister_aws.Base.Lists.{All, get_elem?}
use twister_aws.Base.Texts.{Text}
use twister_aws.Base.Maps.{Map, lookup, insert, keys}
use twister_aws.Base.Sort.{sort}

-- The i-th byte, 0 behind the end.
unfoldable byte_at : Text → ℕ → ℕ
byte_at s i = elim (get_elem? s i) [ none ↦ 0 | some c ↦ c ]

unfoldable is_in : (low high : ℕ) → ℕ → Bool
is_in low high c = leb low c && leb c high

unfoldable is_continuation : ℕ → Bool
unfolding is_in
is_continuation c = is_in 128 191 c

-- The bytes of the character that a text starts with, 0 where it starts with none.
unfoldable rune_length : Text → ℕ
unfolding byte_at is_in is_continuation
rune_length s =
    let a = byte_at s 0 in
    let b = byte_at s 1 in
    let c = is_continuation (byte_at s 2) in
    let d = is_continuation (byte_at s 3) in
    if ltb a 128
    then 1
    else if is_in 194 223 a && is_continuation b
    then 2
    else if ((eqb a 224 && is_in 160 191 b)
          || ((eqb a 237 && is_in 128 159 b)
              || ((is_in 225 236 a || is_in 238 239 a) && is_continuation b)))
        && c
    then 3
    else if ((eqb a 240 && is_in 144 191 b)
          || ((eqb a 244 && is_in 128 143 b) || (is_in 241 243 a && is_continuation b)))
        && (c && d)
    then 4
    else 0

-- `k` bytes of a character are still to come.
unfoldable json_bytes : ℕ → Text → Text
unfolding rune_length
json_bytes k [] = []
json_bytes (suc k) (c ∷ s) = c ∷ json_bytes k s
json_bytes zero (c ∷ s) =
    let n = rune_length (c ∷ s) in
    (if eqb n 0 then 239 ∷ 191 ∷ 189 ∷ [] else c ∷ []) ++ json_bytes (n - 1) s

unfoldable pub json_text : Text → Text
unfolding json_bytes
json_text s = json_bytes 0 s

-- A text of ASCII is kept.
pub json_text_ascii : (s : Text) → All (λ c. c < 128) s → json_text s ≡ s
unfolding json_text
json_text_ascii [] h = refl
json_text_ascii (c ∷ s) h = let rest = json_text_ascii s h.1 in ground (arith, rest, h.0)

-- A map is written in the order of its keys, and of two keys that become one the later is read.
module _ {ℓ} {V : Type ℓ} (each : V → V) where
  unfoldable json_entries : Map V → List Text → Map V → Map V
  json_entries m [] out = out
  json_entries m (k ∷ ks) out =
      json_entries m ks
        (elim (lookup k m) [ none ↦ out | some v ↦ insert (json_text k) (each v) out ])

  unfoldable pub json_map : Map V → Map V
  unfolding json_entries
  json_map m = json_entries m (sort (keys m)) []
