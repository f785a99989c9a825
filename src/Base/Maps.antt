-- ===== src/Base/Maps.antt =====
-- Go's `map[string]V`, as an association list with at most one entry for a key that is inserted.
use mathlib.Core.Path.{◌≡◌, refl}
use mathlib.Core.Bool.{Bool, true, false}
use mathlib.Core.Option.{Option, none, some}
use mathlib.Core.List.{List, [], ◌∷◌, map}
use native.Mathlib.Omega.{arith}
use twister_aws.Base.Lists.{is_nil}
use twister_aws.Base.Tests.{if◌then◌else◌}
use twister_aws.Base.Texts.{Text, ◌==◌, eq_iff}

abbrev pub Map {ℓ} : Type ℓ → Type ℓ
Map V = List (Text × V)

module _ {ℓ} {V : Type ℓ} where
  -- v, ok := m[key]
  unfoldable pub lookup : Text → Map V → Option V
  lookup key [] = none
  lookup key (entry ∷ rest) = if entry.0 == key then some entry.1 else lookup key rest

  -- m[key] = value
  unfoldable pub insert : Text → V → Map V → Map V
  insert key value [] = (key, value) ∷ []
  insert key value (entry ∷ rest) =
      let others = insert key value rest in
      if entry.0 == key then (key, value) ∷ rest else entry ∷ others

  abbrev pub keys : Map V → List Text
  keys = map (λ e. e.0)

  abbrev pub values : Map V → List V
  values = map (λ e. e.1)

  -- What a key holds once a value was stored under another or the same key.
  pub lookup-insert :
      (key asked : Text) (value : V) (m : Map V)
      → lookup asked (insert key value m) ≡ (if key == asked then some value else lookup asked m)
  unfolding lookup insert
  lookup-insert key asked value [] = refl
  lookup-insert key asked value (entry ∷ rest) =
      let others = lookup-insert key asked value rest in
      ground (arith, others, eq_iff entry.0 key, eq_iff entry.0 asked, eq_iff key asked)

  -- delete(m, key)
  unfoldable pub remove : Text → Map V → Map V
  remove key [] = []
  remove key (entry ∷ m) = let rest = remove key m in if entry.0 == key then rest else entry ∷ rest

  pub lookup-remove :
      (key asked : Text) (m : Map V)
      → lookup asked (remove key m) ≡ (if key == asked then none else lookup asked m)
  unfolding lookup remove
  lookup-remove key asked [] = ground arith
  lookup-remove key asked (entry ∷ m) =
      let others = lookup-remove key asked m in
      ground (arith, others, eq_iff entry.0 key, eq_iff entry.0 asked, eq_iff key asked)

-- url.Values.Get, and Header.Get for a key in its canonical spelling: the first value, or the empty text.
unfoldable pub get_first : Text → Map (List Text) → Text
get_first key m = elim (lookup key m) [ none ↦ [] | some [] ↦ [] | some (value ∷ values) ↦ value ]

-- url.Values.Has
unfoldable pub has_key : Text → Map (List Text) → Bool
has_key key m = elim (lookup key m) [ none ↦ false | some values ↦ true ]

pub insert-ne-nil {ℓ} : {V : Type ℓ} (k : Text) (v : V) (m : Map V) → is_nil (insert k v m) ≡ false
unfolding insert
insert-ne-nil k v [] = refl
insert-ne-nil k v ((j, w) ∷ m) = ground arith
