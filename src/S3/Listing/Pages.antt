-- ===== src/S3/Listing/Pages.antt =====
-- What the pages of a listing give together: internal/s3buckets/list.go.
use twister_aws.Base.{
  ℕ, zero, suc, ◌+◌, ◌-◌, ◌^◌, ◌≤◌, ◌<◌, Text, ◌≡◌, refl, sym, ap, subst, ◌∙◌, true, false, List,
  [], ◌∷◌, ◌++◌, append_assoc, append-nil, ltb, length, take, drop, Bool-cases, inl, inr, arith,
  if◌then◌else◌,
}
use twister_aws.Base.Int.{ℤ}
use twister_aws.Base.Numbers.{decimal}
use twister_aws.Base.Results.{ok, err, ◌>>=◌, bind_ok, then_ok}
use twister_aws.Base.Sort.{sort}
use twister_aws.S3.{Manager, Result, other, object_path}
use twister_aws.S3.Files.{Disk, stat}
use twister_aws.S3.Buckets.{check_bucket}
use twister_aws.S3.Objects.{check_there}
use twister_aws.S3.Listing.{
  ListedObject, Page, collect_object_keys, clamp_keys, start_of, row_of, rows_of, page_from,
  list_page, list_objects_v2,
}
use twister_aws.S3.Listing.Tokens.{
  drop_split, clamp_keys_low, start_of-decimal, first_token, drop_all,
}

module _ (md5 : Text → Text) (disk : Disk) (region bucket : Text) (m : Manager) where
  rows_of-append {κ} :
      {P : Type κ} (xs ys : List Text) (rows : List ListedObject)
      → rows_of md5 disk region bucket (xs ++ ys) m ≡ ok rows
      → ((front back : List ListedObject)
          → rows_of md5 disk region bucket xs m ≡ ok front
          → rows_of md5 disk region bucket ys m ≡ ok back
          → rows ≡ front ++ back
          → P)
      → P
  unfolding rows_of
  rows_of-append [] ys rows h k = k [] rows refl h refl
  rows_of-append (x ∷ xs) ys rows h k = bind_ok (object_path region bucket x m) _ h λ p path h₁.
      bind_ok (row_of md5 disk p x m.nodes) _ h₁ λ row one h₂.
        bind_ok (rows_of md5 disk region bucket (xs ++ ys) m) _ h₂ λ rest more h₃.
          rows_of-append xs ys rest more λ front back first last whole.
            let e : row ++ rest ≡ rows = cc in
            k (row ++ front) back (then_ok _ _ path (then_ok _ _ one (then_ok _ _ first refl))) last
              (sym e ∙ (ap (λ t. row ++ t) whole ∙ sym (append_assoc row front back)))

  -- The pages from a token on, one after another, as long as they are truncated.
  unfoldable pub all_pages :
      ℕ → (prefix : Text) → (max_keys : ℤ) → (token : Text) → Result (List ListedObject)
  all_pages zero prefix max_keys token = err other
  all_pages (suc k) prefix max_keys token =
      list_objects_v2 md5 disk region bucket prefix max_keys token m >>= λ page.
      if page.is_truncated
      then (all_pages k prefix max_keys page.next >>= λ rest. ok (page.objects ++ rest))
      else ok page.objects

  no_rows : (rows : List ListedObject) → rows_of md5 disk region bucket [] m ≡ ok rows → rows ≡ []
  unfolding rows_of
  no_rows rows h = cc

  page_from_lem :
      (max start : ℕ) (keys : List Text) (rows : List ListedObject) (end : ℕ)
      → end ≡ (if ltb (length keys) (start + max) then length keys else start + max)
      → rows_of md5 disk region bucket (take (end - start) (drop start keys)) m ≡ ok rows
      → page_from md5 disk region bucket max start keys m
        ≡ ok (record {
          objects = rows;
          is_truncated = ltb end (length keys);
          next = if ltb end (length keys) then decimal end else [];
        })
  unfolding page_from
  page_from_lem max start keys rows end e h = rw e (
      then_ok _ _
        (subst
          (λ n. rows_of md5 disk region bucket (take (n - start) (drop start keys)) m ≡ ok rows) e
          h)
        refl)

  list_opened :
      (prefix : Text) (max_keys : ℤ) (token p : Text)
      → check_bucket region bucket m ≡ ok p
      → check_there true (stat disk p m.nodes) ≡ ok tt
      → list_objects_v2 md5 disk region bucket prefix max_keys token m
        ≡ list_page md5 disk region bucket max_keys token
            (sort (collect_object_keys (p ++ b'/' ∷ []) prefix m.nodes))
            m
  unfolding list_objects_v2
  list_opened prefix max_keys token p path there = then_ok _ _ path (then_ok _ _ there refl)

  list_page_lem :
      (max_keys : ℤ) (token : Text) (start : ℕ) (keys : List Text)
      → start_of token (length keys) ≡ ok start
      → list_page md5 disk region bucket max_keys token keys m
        ≡ page_from md5 disk region bucket (clamp_keys max_keys) start keys m
  unfolding list_page
  list_page_lem max_keys token start keys h = then_ok _ _ h refl

  -- The last page, and one that is not.
  all_pages_last :
      (k : ℕ) (prefix : Text) (max_keys : ℤ) (token : Text) (page : Page)
      → list_objects_v2 md5 disk region bucket prefix max_keys token m ≡ ok page
      → page.is_truncated ≡ false
      → all_pages (suc k) prefix max_keys token ≡ ok page.objects
  unfolding all_pages
  all_pages_last k prefix max_keys token page h last = then_ok _ _ h (rw last refl)

  all_pages_more :
      (k : ℕ) (prefix : Text) (max_keys : ℤ) (token : Text) (page : Page) (rest : List ListedObject)
      → list_objects_v2 md5 disk region bucket prefix max_keys token m ≡ ok page
      → page.is_truncated ≡ true
      → all_pages k prefix max_keys page.next ≡ ok rest
      → all_pages (suc k) prefix max_keys token ≡ ok (page.objects ++ rest)
  unfolding all_pages
  all_pages_more k prefix max_keys token page rest h more after =
      then_ok _ _ h (rw more (then_ok _ _ after refl))

  module _ (prefix : Text) (max_keys : ℤ) (p : Text) (path : check_bucket region bucket m ≡ ok p)
      (there : check_there true (stat disk p m.nodes) ≡ ok tt) where
    abbrev keys_below : List Text
    keys_below = sort (collect_object_keys (p ++ b'/' ∷ []) prefix m.nodes)

    -- The end of the page, as the code has it.
    abbrev end_of : ℕ → ℕ
    end_of start =
        if ltb (length keys_below) (start + clamp_keys max_keys)
        then length keys_below
        else start + clamp_keys max_keys

    abbrev page_of : ℕ → List ListedObject → Page
    page_of start front = record {
      objects = front;
      is_truncated = ltb (end_of start) (length keys_below);
      next = if ltb (end_of start) (length keys_below) then decimal (end_of start) else [];
    }

    end_bounds :
        (start : ℕ)
        → start ≤ length keys_below
        → (start ≤ end_of start) × (end_of start ≤ length keys_below)
    end_bounds start low = ground (arith, low)

    end_moves : (start : ℕ) → ltb (end_of start) (length keys_below) ≡ true → start < end_of start
    end_moves start t = let low = clamp_keys_low max_keys in ground (arith, t, low)

    one_page :
        (start : ℕ) (token : Text) (front : List ListedObject)
        → start_of token (length keys_below) ≡ ok start
        → rows_of md5 disk region bucket (take (end_of start - start) (drop start keys_below)) m
          ≡ ok front
        → list_objects_v2 md5 disk region bucket prefix max_keys token m ≡ ok (page_of start front)
    one_page start token front at h =
        list_opened prefix max_keys token p path there
        ∙ (list_page_lem max_keys token start keys_below at
            ∙ page_from_lem (clamp_keys max_keys) start keys_below front (end_of start) refl h)

    split_at_end :
        (start : ℕ)
        → start ≤ length keys_below
        → drop start keys_below
          ≡ take (end_of start - start) (drop start keys_below) ++ drop (end_of start) keys_below
    split_at_end start low =
        let bounds = end_bounds start low in
        let e : start + (end_of start - start) ≡ end_of start = omega (arith, bounds.0) in
        subst
          (λ n.
            drop start keys_below
            ≡ take (end_of start - start) (drop start keys_below) ++ drop n keys_below)
          e (drop_split start (end_of start - start) keys_below)

    no_rows_after :
        (start : ℕ) (back : List ListedObject)
        → ltb (end_of start) (length keys_below) ≡ false
        → rows_of md5 disk region bucket (drop (end_of start) keys_below) m ≡ ok back
        → back ≡ []
    no_rows_after start back f h =
        let e : drop (end_of start) keys_below ≡ [] =
          drop_all (end_of start) keys_below (ground (arith, f)) in
        no_rows back (subst (λ ks. rows_of md5 disk region bucket ks m ≡ ok back) e h)

    pages_from :
        (k start : ℕ) (token : Text) (rows : List ListedObject)
        → length keys_below < 2 ^ 63
        → start ≤ length keys_below
        → length keys_below < start + k
        → start_of token (length keys_below) ≡ ok start
        → rows_of md5 disk region bucket (drop start keys_below) m ≡ ok rows
        → all_pages k prefix max_keys token ≡ ok rows
    pages_from zero start token rows range low enough at h = absurd (omega (arith, low, enough))
    pages_from (suc k) start token rows range low enough at h =
        rows_of-append (take (end_of start - start) (drop start keys_below))
          (drop (end_of start) keys_below) rows
          (subst (λ ks. rows_of md5 disk region bucket ks m ≡ ok rows) (split_at_end start low) h)
          λ front back first last whole.
            let listed = one_page start token front at first in
            let bounds = end_bounds start low in
            elim (Bool-cases (ltb (end_of start) (length keys_below))) [
              | inl t ↦
                  let moves = end_moves start t in
                  let next : start_of (page_of start front).next (length keys_below)
                      ≡ ok (end_of start) =
                    rw t (start_of-decimal (end_of start) (length keys_below) bounds.1 range) in
                  let rest =
                    pages_from k (end_of start) (page_of start front).next back range bounds.1
                      (omega (arith, enough, moves)) next last in
                  all_pages_more k prefix max_keys token (page_of start front) back listed t rest
                  ∙ ap (λ r. ok r) (sym whole)
              | inr f ↦
                  let none_left = no_rows_after start back f last in
                  let e : rows ≡ front =
                    whole ∙ (ap (λ b. front ++ b) none_left ∙ append-nil front) in
                  all_pages_last k prefix max_keys token (page_of start front) listed f
                  ∙ ap (λ r. ok r) (sym e)
            ]

  -- A bucket that can be listed, whose objects are all listed in one list, `rows`, in the order of their
  -- keys: the pages of any size, from the first one on and as long as one is truncated, give those rows, each
  -- once and in the same order, and there are at most as many pages as keys, and one. The keys are fewer
  -- than 2^63, and the bucket does not change meanwhile.
  pub all_pages_lem :
      (prefix : Text) (max_keys : ℤ) (p : Text) (rows : List ListedObject)
      → check_bucket region bucket m ≡ ok p
      → check_there true (stat disk p m.nodes) ≡ ok tt
      → length (sort (collect_object_keys (p ++ b'/' ∷ []) prefix m.nodes)) < 2 ^ 63
      → rows_of md5 disk region bucket
          (sort (collect_object_keys (p ++ b'/' ∷ []) prefix m.nodes))
          m
        ≡ ok rows
      → all_pages
          (suc (length (sort (collect_object_keys (p ++ b'/' ∷ []) prefix m.nodes))))
          prefix
          max_keys
          []
        ≡ ok rows
  all_pages_lem prefix max_keys p rows path there range h =
      let keys = sort (collect_object_keys (p ++ b'/' ∷ []) prefix m.nodes) in
      pages_from prefix max_keys p path there (suc (length keys)) 0 [] rows range (omega arith)
        (omega arith) (first_token (length keys)) h
