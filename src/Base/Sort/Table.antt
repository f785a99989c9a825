-- ===== src/Base/Sort/Table.antt =====
-- A map that is built again from the entries at a list of its keys.
use mathlib.Core.Path.{◌≡◌, refl}
use mathlib.Core.Bool.{Bool, true}
use mathlib.Core.Option.{Option, none, some}
use mathlib.Core.List.{List, [], ◌∷◌}
use twister_aws.Base.{
  Text, Map, lookup, keys, eq_iff, ◌==◌, if◌then◌else◌, Option-cases, inl, inr, arith,
}
use twister_aws.Base.Sort.{sort, elem, elem-sort, elem-keys}

-- What a lookup gives where an entry, if its key is listed, was put over an older one.
abbrev overlay {ℓ} : {V : Type ℓ} → Option V → Bool → Option V → Option V
overlay (some r) true old = some r
overlay _ _ old = old

module _ {ℓ κ} {V : Type ℓ} {S : Type κ} (add : V → S → S) (entries : S → Map V) where
  unfoldable pub add_all : Map V → List Text → S → S
  add_all m [] s = s
  add_all m (k ∷ ks) s = add_all m ks (elim (lookup k m) [ none ↦ s | some r ↦ add r s ])

  -- Each entry of the map is stored under its key.
  pub record IsStored (m : Map V) : Type (ℓ ⊔ κ) where
    pub stored :
        (k : Text) (r : V) (s : S) (j : Text)
        → lookup k m ≡ some r
        → lookup j (entries (add r s)) ≡ (if k == j then some r else lookup j (entries s))

  lookup-add_all :
      (m : Map V) (ks : List Text) (s : S) (j : Text)
      → IsStored m
      → lookup j (entries (add_all m ks s))
        ≡ overlay (lookup j m) (elem j ks) (lookup j (entries s))
  unfolding elem add_all
  lookup-add_all m [] s j h = ground arith
  lookup-add_all m (k ∷ ks) s j h = elim (Option-cases (lookup k m)) [
    | inl e ↦ rw e (ground (arith, eq_iff k j, e, lookup-add_all m ks s j h))
    | inr (r, e) ↦
        rw e (ground (arith, eq_iff k j, e, lookup-add_all m ks (add r s) j h, h.stored k r s j e))
  ]

  -- The entries at all keys, in sorted order, stored into nothing give the same map.
  pub lookup-add_all_sorted :
      (m : Map V) (s : S) (j : Text)
      → IsStored m
      → entries s ≡ []
      → lookup j (entries (add_all m (sort (keys m)) s)) ≡ lookup j m
  unfolding lookup
  lookup-add_all_sorted m s j h empty =
      rw (lookup-add_all m (sort (keys m)) s j h, empty)
        (elim (Option-cases (lookup j m)) [
          | inl e ↦ rw e refl
          | inr (r, e) ↦ rw (e, elem-sort j (keys m), elem-keys m j r e) refl
        ])
