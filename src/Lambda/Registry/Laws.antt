-- ===== src/Lambda/Registry/Laws.antt =====
-- What a stored function gives back: internal/lambda/registry.go.
use mathlib.Core.List.{append_cancel_right}
use twister_aws.Base.{
  ℕ, ◌≤◌, Text, codes, ◌≡◌, ◌≢◌, refl, sym, subst, ◌∙◌, ap, Bool-cases, inl, inr, Bool, true, false,
  not, some, [], ◌==◌, ◌++◌, lookup, insert, lookup-insert, eq_iff, eq_refl, eq_of_ne, if_lem, eqb,
  ltb, arith, if◌then◌else◌,
}
use twister_aws.Base.Int.{ℤ, pos, negsuc}
use twister_aws.Base.Results.{ok, err, ◌>>=◌}
use twister_aws.Base.Strings.{trim_space}
use twister_aws.Lambda.{
  FunctionConfig, Result, name_required, invalid_name, image_required, empty_root, disk,
}
use twister_aws.Lambda.Registry.{
  Registry, config, clamp, fill, put, get, read_config, function_path, is_function_name,
}

-- A number between 1 and a limit.
pub record IsBetween (limit : ℕ) (z : ℤ) : Type 0 where
  pub n : ℕ
  pub is_n : z ≡ pos n
  pub low : 1 ≤ n
  pub high : n ≤ limit

clamp-IsBetween :
    (standard limit : ℕ) (z : ℤ)
    → 1 ≤ standard
    → standard ≤ limit
    → IsBetween limit (clamp standard limit z)
unfolding clamp
clamp-IsBetween standard limit (negsuc n) low high = record {
  n = standard;
  is_n = refl;
  low = low;
  high = high;
}
clamp-IsBetween standard limit (pos n) low high =
    if_lem (IsBetween limit) (eqb n 0)
      (λ t. record { n = standard; is_n = refl; low = low; high = high })
      λ f.
        if_lem (IsBetween limit) (ltb limit n)
          (λ t. record { n = limit; is_n = refl; low = ground arith; high = ground arith })
          λ g. record { n = n; is_n = refl; low = ground (arith, f); high = ground (arith, g) }

-- What Put answers: the reason why it stores nothing, or the configuration that is stored, with its numbers
-- in bounds; Get gives it back and every other function as it was.
pub data IsPut (written : Bool) (cfg : FunctionConfig) (r : Registry)
    : Result (FunctionConfig × Registry) → Type 0 where
  unnamed : cfg.function_name ≡ [] → IsPut written cfg r (err name_required)
  misnamed : is_function_name cfg.function_name ≡ false → IsPut written cfg r (err invalid_name)
  without_image : trim_space cfg.image_uri ≡ [] → IsPut written cfg r (err image_required)
  rootless : r.root ≡ [] → IsPut written cfg r (err empty_root)
  unwritten : written ≡ false → IsPut written cfg r (err disk)
  stored :
      (c : FunctionConfig) (after : Registry)
      → is_function_name cfg.function_name ≡ true
      → trim_space cfg.image_uri ≢ []
      → r.root ≢ []
      → written ≡ true
      → c.function_name ≡ cfg.function_name
      → c.image_uri ≡ cfg.image_uri
      → IsBetween 900 c.timeout
      → IsBetween 10240 c.memory_size
      → get cfg.function_name after ≡ ok (some c)
      → ((other : Text) → other ≢ cfg.function_name → get other after ≡ get other r)
      → IsPut written cfg r (ok (c, after))

function_path_of :
    (name : Text) (r : Registry)
    → (r.root == []) ≡ false
    → is_function_name name ≡ true
    → function_path name r ≡ ok (name ++ codes ".json")
unfolding function_path
function_path_of name r root valid = ground (arith, root, valid)

get_at :
    (name p : Text) (r : Registry)
    → function_path name r ≡ ok p
    → get name r ≡ read_config (lookup p r.files)
unfolding get
get_at name p r h = rw h refl

get-insert :
    (name : Text) (c : FunctionConfig) (r : Registry)
    → (r.root == []) ≡ false
    → is_function_name name ≡ true
    → get name (record r { files = insert (name ++ codes ".json") (config c) r.files })
      ≡ ok (some c)
unfolding read_config
get-insert name c r root valid =
    let p : Text = name ++ codes ".json" in
    let after : Registry = record r { files = insert p (config c) r.files } in
    get_at name p after (function_path_of name after root valid)
    ∙ rw (lookup-insert p p (config c) r.files, eq_refl p) refl

lookup_other :
    (name other : Text) (c : FunctionConfig) (r : Registry)
    → other ≢ name
    → lookup (other ++ codes ".json") (insert (name ++ codes ".json") (config c) r.files)
      ≡ lookup (other ++ codes ".json") r.files
lookup_other name other c r differ =
    let p : Text = name ++ codes ".json" in
    let q : Text = other ++ codes ".json" in
    let apart : p ≢ q = λ e. differ (sym (append_cancel_right name other (codes ".json") e)) in
    rw (lookup-insert p q (config c) r.files, eq_of_ne p q apart) refl

get_other :
    (name other : Text) (c : FunctionConfig) (r : Registry)
    → (r.root == []) ≡ false
    → other ≢ name
    → get other (record r { files = insert (name ++ codes ".json") (config c) r.files })
      ≡ get other r
unfolding get function_path
get_other name other c r root differ = elim (Bool-cases (is_function_name other)) [
  | inl valid ↦
      let after : Registry = record r {
        files = insert (name ++ codes ".json") (config c) r.files;
      } in
      get_at other (other ++ codes ".json") after (function_path_of other after root valid)
      ∙ (ap read_config (lookup_other name other c r differ)
          ∙ sym (get_at other (other ++ codes ".json") r (function_path_of other r root valid)))
  | inr f ↦ ground (arith, root, f)
]

function_path_rootless :
    (name : Text) (r : Registry) → (r.root == []) ≡ true → function_path name r ≡ err empty_root
unfolding function_path
function_path_rootless name r t = ground (arith, t)

-- The end of Put.
put_file : Bool → FunctionConfig → Registry → Text → Result (FunctionConfig × Registry)
put_file written cfg r p =
    if written
    then ok (fill cfg, record r { files = insert p (config (fill cfg)) r.files })
    else err disk

fill-IsPut :
    (written : Bool) (cfg : FunctionConfig) (r : Registry)
    → (r.root == []) ≡ false
    → is_function_name cfg.function_name ≡ true
    → trim_space cfg.image_uri ≢ []
    → IsPut written cfg r (put_file written cfg r (cfg.function_name ++ codes ".json"))
unfolding put_file fill
fill-IsPut written cfg r root valid imaged =
    if_lem (IsPut written cfg r) written
      (λ t.
        stored (fill cfg)
          (record r {
            files = insert (cfg.function_name ++ codes ".json") (config (fill cfg)) r.files;
          })
          valid imaged (λ e. ground (arith, root, (eq_iff r.root []).1 e)) t refl refl
          (clamp-IsBetween 30 900 cfg.timeout (omega arith) (omega arith))
          (clamp-IsBetween 128 10240 cfg.memory_size (omega arith) (omega arith))
          (get-insert cfg.function_name (fill cfg) r root valid)
          (λ other differ. get_other cfg.function_name other (fill cfg) r root differ))
      unwritten

-- Put stores a function only if its name is a function's name, it has an image that is not blank, there is a root and the file is
-- written, and only with its numbers in bounds: a timeout of 1 to 900 seconds and
-- a memory of 1 to 10240 megabytes. Get then gives the stored configuration back, and every other function
-- as before. Otherwise Put stores nothing and says which of these is missing.
pub put-IsPut :
    (written : Bool) (cfg : FunctionConfig) (r : Registry) → IsPut written cfg r (put written cfg r)
unfolding put put_file
put-IsPut written cfg r =
    let name = cfg.function_name in
    let P : Result (FunctionConfig × Registry) → Type 0 = IsPut written cfg r in
    if_lem P (name == []) (λ t. unnamed ((eq_iff name []).0 t))
      λ f.
        if_lem P (not (is_function_name name)) (λ t. misnamed (ground (arith, t)))
          λ g.
            if_lem P (trim_space cfg.image_uri == [])
              (λ t. without_image ((eq_iff (trim_space cfg.image_uri) []).0 t))
              λ h. elim (Bool-cases (r.root == [])) [
                | inl t ↦
                    subst (λ o. P (o >>= put_file written cfg r))
                      (sym (function_path_rootless name r t)) (rootless ((eq_iff r.root []).0 t))
                | inr root ↦
                    let valid : is_function_name name ≡ true = ground (arith, g) in
                    subst (λ o. P (o >>= put_file written cfg r))
                      (sym (function_path_of name r root valid))
                      (fill-IsPut written cfg r root valid
                        (λ e. ground (arith, h, (eq_iff (trim_space cfg.image_uri) []).1 e)))
              ]
