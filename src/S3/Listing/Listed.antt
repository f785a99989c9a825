-- ===== src/S3/Listing/Listed.antt =====
-- Which objects a listing shows: internal/s3buckets/list.go and object.go.
use twister_aws.Base.{
  Text, Map, codes, ◌≡◌, ◌≢◌, refl, sym, ap, subst, ◌∙◌, Bool, true, false, ◌||◌, some, List, [],
  ◌∷◌, ◌++◌, ◌==◌, eq_iff, eq_refl, eq_of_eq, eq_of_ne, lookup, length, length-append, Bool-cases,
  inl, inr, arith,
}
use twister_aws.Base.Results.{ok, bind_ok}
use twister_aws.Base.Sort.{elem}
use twister_aws.Base.Strings.{has_prefix, hex_encode}
use twister_aws.Base.Strings.Laws.{has_prefix-append, drop-append}
use twister_aws.S3.{Manager, Node, dir, file, Result, bucket_path, object_path}
use twister_aws.S3.Files.{Disk, Stat, found, absent, unknown, stat}
use twister_aws.S3.Objects.{get_object_file}
use twister_aws.S3.Objects.Keeps.{get_file_lem, get_file_elim}
use twister_aws.S3.Listing.{
  ListedObject, key_of, collect_object_keys, quoted, row_at, row_of, rows_of,
}

unfoldable pub is_listed : Text → List ListedObject → Bool
is_listed key [] = false
is_listed key (row ∷ rows) = row.key == key || is_listed key rows

is_listed-append :
    (key : Text) (xs ys : List ListedObject)
    → is_listed key (xs ++ ys) ≡ (is_listed key xs || is_listed key ys)
unfolding is_listed
is_listed-append key [] ys = refl
is_listed-append key (x ∷ xs) ys = let rest = is_listed-append key xs ys in ground (arith, rest)

-- The path of a file below the bucket is not that of the bucket.
not_the_root : (root key : Text) → ((root ++ key) ++ b'/' ∷ [] == root) ≡ false
not_the_root root key = eq_of_ne _ _ (λ e.
    let l = ap length e in
    let a = length-append (root ++ key) (b'/' ∷ []) in
    let b = length-append root key in omega (arith, l, a, b))

collect_head :
    (root prefix key old path : Text) (nodes : Map Node)
    → path ≡ root ++ key
    → has_prefix key prefix ≡ true
    → elem key (collect_object_keys root prefix ((path, file old) ∷ nodes)) ≡ true
unfolding collect_object_keys elem key_of
collect_head root prefix key old path nodes e h =
    rw (e, not_the_root root key, has_prefix-append root key, drop-append root key, h, eq_refl key)
      refl

-- A file below the bucket whose key has the prefix is collected.
pub collect_file :
    (root prefix key content : Text) (nodes : Map Node)
    → lookup (root ++ key) nodes ≡ some (file content)
    → has_prefix key prefix ≡ true
    → elem key (collect_object_keys root prefix nodes) ≡ true
unfolding lookup collect_object_keys elem
collect_file root prefix key content [] there h = ground arith
collect_file root prefix key content ((path, dir) ∷ nodes) there h =
    collect_file root prefix key content nodes (ground (arith, there)) h
collect_file root prefix key content ((path, file old) ∷ nodes) there h =
    elim (Bool-cases (path == root ++ key)) [
      | inr f ↦
          let rest = collect_file root prefix key content nodes (ground (arith, f, there)) h in
          ground (arith, rest)
      | inl t ↦ collect_head root prefix key old path nodes ((eq_iff path (root ++ key)).0 t) h
    ]

pub collect_prefix :
    (root prefix key : Text) (nodes : Map Node)
    → elem key (collect_object_keys root prefix nodes) ≡ true
    → has_prefix key prefix ≡ true
unfolding collect_object_keys elem
collect_prefix root prefix key [] h = ground arith
collect_prefix root prefix key ((path, dir) ∷ nodes) h = collect_prefix root prefix key nodes h
collect_prefix root prefix key ((path, file content) ∷ nodes) h =
    let rest = collect_prefix root prefix key nodes in
    ground (arith, h, rest, eq_iff (key_of root path) key, eq_iff (codes ".") key)

not_in_none : (asked : Text) (row : List ListedObject) → [] ≡ row → is_listed asked row ≢ true
unfolding is_listed
not_in_none asked row e l =
    let f : is_listed asked row ≡ false = subst (λ r. is_listed asked r ≡ false) e refl in
    ground (arith, f, l)

-- A row alone.
listed_one :
    (asked : Text) (one : ListedObject) (row : List ListedObject)
    → one ∷ [] ≡ row
    → is_listed asked row ≡ (one.key == asked)
unfolding is_listed
listed_one asked one row e = subst (λ r. is_listed asked r ≡ (one.key == asked)) e (ground arith)

path_unique : (r : Result Text) (p q : Text) → r ≡ ok p → r ≡ ok q → p ≡ q
path_unique r p q h h' = cc

module _ (md5 : Text → Text) (disk : Disk) (region bucket : Text) (m : Manager) where
  -- The row that a stat gives.
  row_at_listed :
      (p key asked : Text) (s : Stat) (row : List ListedObject)
      → row_at md5 disk p key s ≡ ok row
      → is_listed asked row ≡ true
      → (key ≡ asked) × ((content : Text) × (s ≡ found (file content)))
  unfolding row_at
  row_at_listed p key asked absent row h l =
      let e : [] ≡ row = cc in absurd (not_in_none asked row e l)
  row_at_listed p key asked unknown row h l = ground arith
  row_at_listed p key asked (found dir) row h l =
      let e : [] ≡ row = cc in absurd (not_in_none asked row e l)
  row_at_listed p key asked (found (file content)) row h l =
      let one : ListedObject = record {
        key = key;
        last_modified = disk.modified p;
        size = length content;
        etag = quoted (hex_encode (md5 content));
      } in
      let e : one ∷ [] ≡ row = cc in
      ((eq_iff key asked).0 (sym (listed_one asked one row e) ∙ l), (content, refl))

  row_at_file :
      (p key content : Text) (row : List ListedObject)
      → row_at md5 disk p key (found (file content)) ≡ ok row
      → is_listed key row ≡ true
  unfolding row_at is_listed
  row_at_file p key content row h =
      let one : ListedObject = record {
        key = key;
        last_modified = disk.modified p;
        size = length content;
        etag = quoted (hex_encode (md5 content));
      } in
      let e : one ∷ [] ≡ row = cc in listed_one key one row e ∙ eq_refl key

  -- A key that is listed has an object, and one that has an object is listed.
  pub listed_object :
      (keys : List Text) (rows : List ListedObject) (asked : Text) (node : Node)
      → stat disk (bucket_path region bucket) m.nodes ≡ found node
      → rows_of md5 disk region bucket keys m ≡ ok rows
      → is_listed asked rows ≡ true
      → (elem asked keys ≡ true)
        × ((got : Text × Text) × (get_object_file disk region bucket asked m ≡ ok got))
  unfolding rows_of row_of elem
  listed_object [] rows asked node there h l =
      let e : [] ≡ rows = cc in absurd (not_in_none asked rows e l)
  listed_object (key ∷ keys) rows asked node there h l =
      bind_ok (object_path region bucket key m) _ h λ p path h₁.
        bind_ok (row_of md5 disk p key m.nodes) _ h₁ λ row one h₂.
          bind_ok (rows_of md5 disk region bucket keys m) _ h₂ λ rest more h₃.
            let whole : row ++ rest ≡ rows = cc in
            let split = is_listed-append asked row rest in
            let l' : is_listed asked (row ++ rest) ≡ true =
              subst (λ r. is_listed asked r ≡ true) (sym whole) l in
            elim (Bool-cases (is_listed asked row)) [
              | inl t ↦
                  let r = row_at_listed p key asked (stat disk p m.nodes) row one t in
                  let at = r.1.1 in
                  let got = get_file_lem disk region bucket key p r.1.0 m node there path at in
                  (
                    ground (arith, eq_of_eq key asked r.0),
                    (
                      (p, r.1.0),
                      subst (λ k. get_object_file disk region bucket k m ≡ ok (p, r.1.0)) r.0 got,
                    ),
                  )
              | inr f ↦
                  let later =
                    listed_object keys rest asked node there more (ground (arith, l', split, f)) in
                  (ground (arith, later.0), later.1)
            ]

  pub object_listed :
      (keys : List Text) (rows : List ListedObject) (asked q content : Text)
      → rows_of md5 disk region bucket keys m ≡ ok rows
      → elem asked keys ≡ true
      → get_object_file disk region bucket asked m ≡ ok (q, content)
      → is_listed asked rows ≡ true
  unfolding rows_of row_of elem
  object_listed [] rows asked q content h l got = ground arith
  object_listed (key ∷ keys) rows asked q content h l got =
      bind_ok (object_path region bucket key m) _ h λ p path h₁.
        bind_ok (row_of md5 disk p key m.nodes) _ h₁ λ row one h₂.
          bind_ok (rows_of md5 disk region bucket keys m) _ h₂ λ rest more h₃.
            let whole : row ++ rest ≡ rows = cc in
            let split = is_listed-append asked row rest in
            let listed : is_listed asked (row ++ rest) ≡ true = elim (Bool-cases (key == asked)) [
              | inl t ↦
                  get_file_elim disk region bucket asked q content m got λ node there path' at.
                    let same = (eq_iff key asked).0 t in
                    let o : object_path region bucket key m ≡ ok q =
                      subst (λ k. object_path region bucket k m ≡ ok q) (sym same) path' in
                    let e : p ≡ q = path_unique (object_path region bucket key m) p q path o in
                    let here = row_at_file p key content row (
                      subst (λ s. row_at md5 disk p key s ≡ ok row)
                        (ap (λ x. stat disk x m.nodes) e ∙ at) one) in
                    ground (arith, split, subst (λ k. is_listed k row ≡ true) same here)
              | inr f ↦
                  let later =
                    object_listed keys rest asked q content more (ground (arith, f, l)) got in
                  ground (arith, split, later)
            ] in
            subst (λ r. is_listed asked r ≡ true) whole listed
