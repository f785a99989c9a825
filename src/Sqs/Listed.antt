-- ===== src/Sqs/Listed.antt =====
-- The names that ListQueues gives: internal/sqs/store.go.
use twister_aws.Base.{
  ℕ, ◌-◌, ◌≤◌, Text, Map, codes, ◌≡◌, ◌↔◌, refl, sym, subst, ◌∙◌, ap, Bool, true, false, Option,
  none, some, List, [], ◌∷◌, ◌==◌, ◌++◌, ◌||◌, ◌&&◌, lookup, keys, eq_iff, eq_refl, Option-cases,
  Bool-cases, inl, inr, Lacks, arith, take, drop, length, eqb, take-append-drop, length-append,
}
use twister_aws.Base.Sort.{elem, elem-keys, elem-sort, sort}
use twister_aws.Base.Strings.{cut_byte, has_prefix, has_suffix}
use twister_aws.Base.Strings.Laws.{cut_byte-append, drop-append}
use twister_aws.Region.{normalize_region, is_valid_region_segment}
use twister_aws.Region.Laws.{is_valid_region_segment-Lacks}
use twister_aws.Sqs.{
  Manager, QueueFile, ok, is_valid_queue_name, file_of, queue_path, queue_has, entries_of,
  queue_names, list_queues,
}

cut_byte-IsSplit : (b : ℕ) (p s x : Text) → cut_byte b p ≡ some (s, x) → p ≡ s ++ b ∷ x
unfolding cut_byte
cut_byte-IsSplit b [] s x h = absurd (ground (arith, h))
cut_byte-IsSplit b (c ∷ p) s x h = elim (Bool-cases (eqb c b)) [
  | inl t ↦ ground (arith, h, t)
  | inr f ↦ elim (Option-cases (cut_byte b p)) [
    | inl e ↦ absurd (ground (arith, h, f, e))
    | inr ((s', x'), e) ↦
        let split = cut_byte-IsSplit b p s' x' e in
        let both : (c ∷ s' ≡ s) × (x' ≡ x) = ground (arith, h, f, e) in cc (split, both.0, both.1)
  ]
]

-- Whether a path is that of an entry of the region's directory.
abbrev is_entry : Text → Text → Option (Text × Text) → Bool
is_entry r e none = false
is_entry r e (some (s, x)) = (s == r) && (x == e)

is_entry_lem : (r e p : Text) → Lacks b'/' r → is_entry r e (cut_byte b'/' p) ≡ (p == r ++ b'/' ∷ e)
is_entry_lem r e p slashless = elim (Bool-cases (p == r ++ b'/' ∷ e)) [
  | inl t ↦
      let at : p ≡ r ++ b'/' ∷ e = (eq_iff p _).0 t in
      let cut : cut_byte b'/' p ≡ some (r, e) = rw at (cut_byte-append b'/' r e slashless) in
      rw (cut, t, eq_refl r, eq_refl e) refl
  | inr f ↦ elim (Option-cases (cut_byte b'/' p)) [
    | inl miss ↦ rw (miss, f) refl
    | inr ((s, x), cut) ↦
        let split = cut_byte-IsSplit b'/' p s x cut in
        rw (cut, f)
          (elim (Bool-cases ((s == r) && (x == e))) [
            | inr g ↦ g
            | inl g ↦
                let same : s ≡ r = (eq_iff s r).0 (ground (arith, g)) in
                let same' : x ≡ e = (eq_iff x e).0 (ground (arith, g)) in
                let at : p ≡ r ++ b'/' ∷ e = cc (split, same, same') in
                absurd (ground (arith, f, (eq_iff p (r ++ b'/' ∷ e)).1 at))
          ])
  ]
]

-- Of the entries of a region's directory.
elem-entries_of :
    (r e : Text) (ps : List Text)
    → Lacks b'/' r
    → elem e (entries_of r ps) ≡ elem (r ++ b'/' ∷ e) ps
unfolding elem entries_of
elem-entries_of r e [] slashless = refl
elem-entries_of r e (p ∷ ps) slashless =
    let rest = elem-entries_of r e ps slashless in
    let at = is_entry_lem r e p slashless in
    elim (Option-cases (cut_byte b'/' p)) [
      | inl miss ↦ ground (arith, miss, at, rest)
      | inr ((s, x), cut) ↦ ground (arith, cut, at, rest)
    ]

has_suffix-take : (s p : Text) → has_suffix s p ≡ true → s ≡ take (length s - length p) s ++ p
unfolding has_suffix
has_suffix-take s p h =
    let e : drop (length s - length p) s ≡ p = (eq_iff _ _).0 (ground (arith, h)) in
    subst (λ x. s ≡ take (length s - length p) s ++ x) e (sym (take-append-drop _ s))

take_front : (s p : Text) → take (length s) (s ++ p) ≡ s
take_front [] p = refl
take_front (c ∷ s) p = ap (λ x. c ∷ x) (take_front s p)

front_length : (s p : Text) → length (s ++ p) - length p ≡ length s
front_length s p = rw (length-append s p) (omega arith)

has_suffix-append : (s p : Text) → has_suffix (s ++ p) p ≡ true
unfolding has_suffix
has_suffix-append s p =
    let low : length p ≤ length (s ++ p) = rw (length-append s p) (omega arith) in
    rw (front_length s p, drop-append s p, eq_refl p) (ground (arith, low))

starts_of :
    (s prefix : Text) → ((prefix == []) || has_prefix s prefix) ≡ true → has_prefix s prefix ≡ true
unfolding has_prefix ◌==◌
starts_of s [] h = refl
starts_of s (c ∷ prefix) h = h

-- A key of a map has a value.
keys_found :
    {V : Type 0} (m : Map V) (j : Text) → elem j (keys m) ≡ true → (v : V) × (lookup j m ≡ some v)
unfolding elem lookup
keys_found [] j h = absurd (ground (arith, h))
keys_found ((k, w) ∷ m) j h = elim (Bool-cases (k == j)) [
  | inl t ↦ (w, ground (arith, t))
  | inr f ↦ let r = keys_found m j (ground (arith, h, f)) in (r.0, ground (arith, f, r.1))
]

-- A name that is listed, and what makes a name be listed.
listed_of :
    (prefix name : Text) (es : List Text)
    → elem name (queue_names prefix es) ≡ true
    → (elem (name ++ codes ".json") es ≡ true)
      × (is_valid_queue_name name ≡ true)
      × (has_prefix name prefix ≡ true)
unfolding elem queue_names
listed_of prefix name [] h = absurd (ground (arith, h))
listed_of prefix name (e ∷ es) h =
    let rest = listed_of prefix name es in
    let cut = has_suffix-take e (codes ".json") in
    let here = eq_iff (take (length e - 5) e) name in
    let there = eq_iff e (name ++ codes ".json") in
    elim (Bool-cases (elem name (queue_names prefix es))) [
      | inl t ↦ let r = rest t in (ground (arith, r.0), r.1, r.2)
      | inr f ↦
          let same : take (length e - 5) e ≡ name = here.0 (ground (arith, h, f)) in
          let at : e ≡ name ++ codes ".json" =
            cut (ground (arith, h, f)) ∙ ap (λ x. x ++ codes ".json") same in
          (
            ground (arith, there.1 at),
            subst (λ x. is_valid_queue_name x ≡ true) same (ground (arith, h, f)),
            subst (λ x. has_prefix x prefix ≡ true) same
                (starts_of (take (length e - 5) e) prefix (ground (arith, h, f))),
          )
    ]

of_listed :
    (prefix name : Text) (es : List Text)
    → elem (name ++ codes ".json") es ≡ true
    → is_valid_queue_name name ≡ true
    → has_prefix name prefix ≡ true
    → elem name (queue_names prefix es) ≡ true
unfolding elem queue_names
of_listed prefix name [] h valid starts = absurd (ground (arith, h))
of_listed prefix name (e ∷ es) h valid starts =
    let rest =
      λ (h : elem (name ++ codes ".json") es ≡ true). of_listed prefix name es h valid starts in
    elim (Bool-cases (e == name ++ codes ".json")) [
      | inl t ↦
          let at : e ≡ name ++ codes ".json" = (eq_iff e (name ++ codes ".json")).0 t in
          let suffix : has_suffix e (codes ".json") ≡ true =
            rw at (has_suffix-append name (codes ".json")) in
          let front : take (length e - 5) e ≡ name =
            rw (at, front_length name (codes ".json")) (take_front name (codes ".json")) in
          rw (suffix, front, valid, starts) (ground (arith, eq_refl name))
      | inr f ↦ let more = rest (ground (arith, h, f)) in ground (arith, more)
    ]

queue_has_found :
    (region name p : Text) (m : Manager) (f : QueueFile)
    → queue_path region name m ≡ ok p
    → lookup p m.files ≡ some f
    → queue_has region name m ≡ ok true
unfolding queue_has
queue_has_found region name p m f path e = ground (arith, path, e)

-- What it says that a queue is there.
record IsThere (region name : Text) (m : Manager) : Type 0 where
  name_valid : is_valid_queue_name name ≡ true
  file : QueueFile
  stored : lookup (file_of (normalize_region region) name) m.files ≡ some file

queue-IsThere :
    (region name : Text) (m : Manager) → queue_has region name m ≡ ok true → IsThere region name m
unfolding queue_has queue_path
queue-IsThere region name m h =
    let p = file_of (normalize_region region) name in
    let found : (f : QueueFile) × (lookup p m.files ≡ some f) =
      elim (Option-cases (lookup p m.files)) [
        | inl miss ↦ absurd (ground (arith, h, miss))
        | inr f ↦ f
      ] in
    record { name_valid = ground (arith, h); file = found.0; stored = found.1 }

-- What ListQueues gives, where it succeeds: a text is among the names exactly when it names a queue that is there,
-- in the region that is asked for, and starts with the prefix that is asked for.
pub list_queues_iff :
    (region prefix name : Text) (m : Manager) (names : List Text)
    → list_queues region prefix m ≡ ok names
    → (elem name names ≡ true)
      ↔ ((queue_has region name m ≡ ok true) × (has_prefix name prefix ≡ true))
unfolding list_queues queue_path
list_queues_iff region prefix name m names h =
    let r = normalize_region region in
    let es = entries_of r (keys m.files) in
    let e = name ++ codes ".json" in
    let valid : is_valid_region_segment r ≡ true = ground (arith, h) in
    let root : (m.root == []) ≡ false = ground (arith, h) in
    let are : names ≡ queue_names prefix (sort es) = ground (arith, h) in
    let sorted = elem-sort e es in
    let there = elem-entries_of r e (keys m.files) (is_valid_region_segment-Lacks r valid) in
    (
      λ here.
          let l = listed_of prefix name (sort es) (rw (← are) here) in
          let found = keys_found m.files (file_of r name) (ground (arith, there, sorted, l.0)) in
          let path : queue_path region name m ≡ ok (file_of r name) =
            ground (arith, valid, l.1, root) in
          (queue_has_found region name (file_of r name) m found.0 path found.1, l.2),
      λ here.
          let f = queue-IsThere region name m here.0 in
          let listed : elem e (sort es) ≡ true =
            ground (arith, sorted, there, elem-keys m.files (file_of r name) f.file f.stored) in
          rw are (of_listed prefix name (sort es) listed f.name_valid here.1),
    )
