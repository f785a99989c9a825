-- ===== src/Credentials/RoundTrip.antt =====
-- What the file of access keys holds after a write, and what a reload gives back: persist.go and
-- provider.go of internal/credentials.
use twister_aws.Base.{
  Text, Map, ◌≡◌, ◌≢◌, refl, sym, ◌∙◌, subst, ◌⊎◌, if_lem, Bool, true, false, Option, none, some,
  List, [], ◌∷◌, ◌==◌, lookup, insert, keys, lookup-insert, eq_iff, eq_refl, eq_of_ne,
  if◌then◌else◌, arith, Option-cases, Bool-cases, inl, inr,
}
use twister_aws.Base.Files.{holds}
use twister_aws.Base.Sort.{sort, elem, elem-sort, elem-keys}
use twister_aws.Base.Strings.{
  trim_left, trim_right, is_space, to_lower, lower_byte, trim_space, read_back,
}
use twister_aws.Credentials.{
  Provider, Row, CsvFile, normalize_allowlist, load_row, load_rows, is_header, load_csv, header,
  rows_of, write_allowlist_csv, add_access_key_and_persist, reload_from_file,
}

-- A text that the file keeps: not empty, without blanks at the ends, and without CR LF.
pub record IsKept (t : Text) : Type 0 where
  pub filled : t ≢ []
  pub trimmed : trim_space t ≡ t
  pub kept : read_back t ≡ t

-- All keys and secrets are kept.
pub record AreKept (m : Map Text) : Type 0 where
  pub key_kept : (k s : Text) → lookup k m ≡ some s → IsKept k
  pub secret_kept : (k s : Text) → lookup k m ≡ some s → IsKept s

rows_of_present :
    (m : Map Text) (k : Text) (ks : List Text) (s : Text)
    → lookup k m ≡ some s
    → k ≢ []
    → rows_of m (k ∷ ks) ≡ (read_back k ∷ read_back s ∷ []) ∷ rows_of m ks
unfolding rows_of
rows_of_present m k ks s h ne = rw (h, eq_of_ne k [] ne) refl

load_row_kept :
    (k s : Text) (m : Map Text)
    → IsKept k
    → IsKept s
    → load_row (read_back k ∷ read_back s ∷ []) m ≡ insert k s m
unfolding load_row
load_row_kept k s m hk hs =
    rw (hk.kept, hs.kept, hk.trimmed, hs.trimmed, eq_of_ne k [] hk.filled, eq_of_ne s [] hs.filled)
      refl

load_rows_step :
    (row : Row) (rows : List Row) (m : Map Text)
    → load_rows (row ∷ rows) m ≡ load_rows rows (load_row row m)
unfolding load_rows
load_rows_step row rows m = refl

load_row_no_secret : (k : Text) (m : Map Text) → load_row (k ∷ read_back [] ∷ []) m ≡ m
unfolding load_row read_back trim_space trim_left trim_right ◌==◌
load_row_no_secret k m = ground arith

-- Keys that hold nothing add nothing.
load_blank :
    (k : Text) (m acc : Map Text) (ks : List Text)
    → lookup k m ≡ none
    → load_rows (rows_of m (k ∷ ks)) acc ≡ load_rows (rows_of m ks) acc
unfolding rows_of
load_blank k m acc ks h = elim (Bool-cases (k == [])) [
  | inl e ↦ rw e refl
  | inr e ↦
      rw
        (
          e,
          h,
          load_rows_step (read_back k ∷ read_back [] ∷ []) (rows_of m ks) acc,
          load_row_no_secret (read_back k) acc,
        )
        refl
]

lookup-load_rows :
    (m : Map Text) (ks : List Text) (acc : Map Text) (j : Text)
    → AreKept m
    → lookup j (load_rows (rows_of m ks) acc) ≡ (
        if elem j ks
        then (elim (lookup j m) [ none ↦ lookup j acc | some s ↦ some s ])
        else lookup j acc)
unfolding elem
lookup-load_rows m [] acc j h = unfold load_rows rows_of in refl
lookup-load_rows m (k ∷ ks) acc j h = elim (Option-cases (lookup k m)) [
  | inl e ↦
      rw (load_blank k m acc ks e) (ground (arith, eq_iff k j, e, lookup-load_rows m ks acc j h))
  | inr (s, e) ↦
      let kept = h.key_kept k s e in
      rw
        (
          rows_of_present m k ks s e kept.filled,
          load_rows_step (read_back k ∷ read_back s ∷ []) (rows_of m ks) acc,
          load_row_kept k s acc kept (h.secret_kept k s e),
        )
        (ground (
          arith,
          eq_iff k j,
          e,
          lookup-load_rows m ks (insert k s acc) j h,
          lookup-insert k j s acc,
        ))
]

lookup-normalize_allowlist :
    (m : Map Text) (j : Text) → trim_space j ≢ [] → lookup j (normalize_allowlist m) ≡ lookup j m
unfolding normalize_allowlist lookup
lookup-normalize_allowlist [] j h = refl
lookup-normalize_allowlist ((k, v) ∷ m) j h =
    let rest = lookup-normalize_allowlist m j h in
    if_lem (λ t. lookup j t ≡ (if k == j then some v else lookup j m)) (trim_space k == [])
      (λ e.
        rw
          (
            rest,
            eq_of_ne k j
                (λ q. h (subst (λ t. trim_space t ≡ []) q ((eq_iff (trim_space k) []).0 e))),
          )
          refl)
      (λ e. rw rest refl)

load_csv_written : (rows : List Row) → load_csv (header ∷ rows) ≡ load_rows rows []
unfolding load_csv is_header to_lower lower_byte trim_space trim_left trim_right is_space ◌==◌
load_csv_written rows = refl

-- Adding a key that is kept keeps all.
insert-AreKept :
    (ak sk : Text) (m : Map Text) → IsKept ak → IsKept sk → AreKept m → AreKept (insert ak sk m)
insert-AreKept ak sk m ha hs h = record {
  key_kept = λ k s e. by_key k s e (Bool-cases (ak == k));
  secret_kept = λ k s e. by_secret k s e (Bool-cases (ak == k));
}
  where
    by_key :
        (k s : Text)
        → lookup k (insert ak sk m) ≡ some s
        → ((ak == k) ≡ true) ⊎ ((ak == k) ≡ false)
        → IsKept k
    by_key k s e (inl q) = subst IsKept ((eq_iff ak k).0 q) ha
    by_key k s e (inr q) = h.key_kept k s (ground (arith, lookup-insert ak k sk m, q, e))

    by_secret :
        (k s : Text)
        → lookup k (insert ak sk m) ≡ some s
        → ((ak == k) ≡ true) ⊎ ((ak == k) ≡ false)
        → IsKept s
    by_secret k s e (inl q) = subst IsKept (ground (arith, lookup-insert ak k sk m, q, e)) hs
    by_secret k s e (inr q) = h.secret_kept k s (ground (arith, lookup-insert ak k sk m, q, e))

if_same : (b : Bool) (o : Option Text) → (if b then o else o) ≡ o
if_same true o = refl
if_same false o = refl

-- What a reload of the written file gives.
lookup-load_csv :
    (m : Map Text) (j : Text)
    → AreKept m
    → lookup j (load_csv (header ∷ rows_of m (sort (keys m)))) ≡ lookup j m
unfolding lookup
lookup-load_csv m j h =
    rw (load_csv_written (rows_of m (sort (keys m))), lookup-load_rows m (sort (keys m)) [] j h)
      (elim (Option-cases (lookup j m)) [
        | inl e ↦ rw e (if_same (elem j (sort (keys m))) none)
        | inr (s, e) ↦ rw (elem-sort j (keys m), elem-keys m j s e, e) refl
      ])

abbrev with_key : Text → Text → Provider → Provider
with_key ak sk p = record p { access_to_secret = insert ak sk p.access_to_secret }

abbrev written_file : Map Text → CsvFile
written_file m = holds (header ∷ rows_of m (sort (keys m)))

added :
    (ak sk : Text) (p p' : Provider) (file file' : CsvFile)
    → add_access_key_and_persist true ak sk p file ≡ (none, p', file')
    → (p' ≡ with_key ak sk p)
      × ((file' ≡ written_file (with_key ak sk p).access_to_secret) × ((p.csv_path == []) ≡ false))
unfolding add_access_key_and_persist write_allowlist_csv
added ak sk p p' file file' e = (ground arith, (ground arith, ground arith))

reloaded :
    (p : Provider)
    → (p.csv_path == []) ≡ false
    → reload_from_file p (written_file p.access_to_secret) ≡ (
      none,
      record p {
        access_to_secret =
            normalize_allowlist
              (load_csv (header ∷ rows_of p.access_to_secret (sort (keys p.access_to_secret))));
      },
    )
unfolding reload_from_file
reloaded p e = rw e refl

lookup-reloaded :
    (m : Map Text) (j : Text)
    → AreKept m
    → trim_space j ≢ []
    → lookup j (normalize_allowlist (load_csv (header ∷ rows_of m (sort (keys m))))) ≡ lookup j m
lookup-reloaded m j h ne =
    lookup-normalize_allowlist (load_csv (header ∷ rows_of m (sort (keys m)))) j ne
    ∙ lookup-load_csv m j h

-- Where the keys and secrets of a provider, and a new pair, are not empty, have no blanks at the ends and
-- no CR LF: if the pair is added and the file is written, then a reload from that file succeeds, holds the
-- new secret under the new key, and gives for every key that is not blank what the provider gave before
-- the reload.
pub reload_from_file-add_access_key_and_persist :
    (ak sk : Text) (p p' : Provider) (file file' : CsvFile)
    → AreKept p.access_to_secret
    → IsKept ak
    → IsKept sk
    → add_access_key_and_persist true ak sk p file ≡ (none, p', file')
    → ((reload_from_file p' file').0 ≡ none)
      × (lookup ak (reload_from_file p' file').1.access_to_secret ≡ some sk)
      × ((j : Text)
          → trim_space j ≢ []
          → lookup j (reload_from_file p' file').1.access_to_secret ≡ lookup j p'.access_to_secret)
reload_from_file-add_access_key_and_persist ak sk p p' file file' h ha hs e =
    let (same, (wrote, path)) = added ak sk p p' file file' e in
    let q = with_key ak sk p in
    let m = q.access_to_secret in
    let all = insert-AreKept ak sk p.access_to_secret ha hs h in
    let given = reloaded q path in
    let not_blank : trim_space ak ≢ [] = λ b. ha.filled (sym ha.trimmed ∙ b) in
    rw (same, wrote, given)
      (
        refl,
        rw
            (
              lookup-reloaded m ak all not_blank,
              lookup-insert ak ak sk p.access_to_secret,
              eq_refl ak,
            )
            refl,
        λ j ne. lookup-reloaded m j all ne,
      )
