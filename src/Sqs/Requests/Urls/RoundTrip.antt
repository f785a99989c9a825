-- ===== src/Sqs/Requests/Urls/RoundTrip.antt =====
-- The URL that names a queue, read back: internal/sqs/handler.go and json.go.
use mathlib.Core.Option
use twister_aws.Base.{
  ℕ, Text, codes, Lacks, ◌≡◌, ◌≢◌, refl, sym, ap, true, false, some, [], ◌∷◌, ◌++◌, arith,
}
use twister_aws.Base.Strings.{split}
use twister_aws.Base.Strings.Laws.{
  split-Lacks, split-append, has_byte, has_byte-Lacks, is_nil_append,
}
use twister_aws.Sigv4.Encoding.{is_unreserved}
use twister_aws.Sqs.{is_queue_byte, all_queue_bytes, is_valid_queue_name}
use twister_aws.Sqs.Requests.{Env}
use twister_aws.Sqs.Requests.Urls.{
  in_segment, path_escape, path_unescape, make_queue_url, placeholder_acct, trim_left_slashes,
  trim_right_slashes, trim_slashes, last_segment, unescaped, json_queue_name_from_url,
}

-- url.Parse gives the path of a URL that consists of the base and segments that need no escape.
pub record IsUrls (env : Env) (base : Text) : Type 0 where
  pub path_read :
      (s : Text)
      → all_queue_bytes s ≡ true
      → env.url_path (base ++ b'/' ∷ (placeholder_acct ++ b'/' ∷ s))
        ≡ some (b'/' ∷ (placeholder_acct ++ b'/' ∷ s))

queue_byte_kept : (c : ℕ) → is_queue_byte c ≡ true → in_segment c ≡ true
unfolding is_queue_byte in_segment is_unreserved
queue_byte_kept c h = ground arith

-- A queue name needs no escape.
path_escape_name : (s : Text) → all_queue_bytes s ≡ true → path_escape s ≡ s
unfolding path_escape all_queue_bytes
path_escape_name [] h = refl
path_escape_name (c ∷ s) h =
    let here : is_queue_byte c ≡ true = ground arith in
    rw (queue_byte_kept c here) (ap (λ t. c ∷ t) (path_escape_name s (ground arith)))

is_queue_byte-ne : (b c : ℕ) → is_queue_byte b ≡ false → is_queue_byte c ≡ true → c ≢ b
is_queue_byte-ne b c e h q = let k : is_queue_byte b ≡ true = rw (sym q) h in ground (arith, e, k)

name-Lacks : (b : ℕ) (s : Text) → is_queue_byte b ≡ false → all_queue_bytes s ≡ true → Lacks b s
unfolding all_queue_bytes
name-Lacks b [] e h = tt
name-Lacks b (c ∷ s) e h = (is_queue_byte-ne b c e (ground arith), name-Lacks b s e (ground arith))

path_unescape_other :
    (c : ℕ) (s : Text)
    → c ≢ b'%'
    → path_unescape (c ∷ s) ≡ Option.map (λ t. c ∷ t) (path_unescape s)
unfolding path_unescape
path_unescape_other c [] h = ground (arith, h)
path_unescape_other c (d ∷ []) h = ground (arith, h)
path_unescape_other c (d ∷ e ∷ s) h = ground (arith, h)

path_unescape_end : path_unescape [] ≡ some []
unfolding path_unescape
path_unescape_end = refl

percent_no_name : is_queue_byte b'%' ≡ false
unfolding is_queue_byte
percent_no_name = refl

slash_no_name : is_queue_byte b'/' ≡ false
unfolding is_queue_byte
slash_no_name = refl

path_unescape_name : (s : Text) → all_queue_bytes s ≡ true → path_unescape s ≡ some s
unfolding all_queue_bytes
path_unescape_name [] h = path_unescape_end
path_unescape_name (c ∷ s) h =
    rw
      (
        path_unescape_other c s (is_queue_byte-ne b'%' c percent_no_name (ground arith)),
        path_unescape_name s (ground arith),
      )
      refl

unescaped_name : (s : Text) → all_queue_bytes s ≡ true → unescaped s ≡ s
unfolding unescaped
unescaped_name s h = rw (path_unescape_name s h, unescaped) refl

valid_parts :
    (name : Text) → is_valid_queue_name name ≡ true → (name ≢ []) × (all_queue_bytes name ≡ true)
unfolding is_valid_queue_name
valid_parts [] h = ((λ e. ground arith), ground arith)
valid_parts (c ∷ s) h = ((λ e. ground (arith, e)), ground arith)

trim_right_slashes-Lacks : (s : Text) → Lacks b'/' s → trim_right_slashes s ≡ s
unfolding trim_right_slashes
trim_right_slashes-Lacks [] h = refl
trim_right_slashes-Lacks (c ∷ s) h =
    rw (trim_right_slashes-Lacks s h.1, trim_right_slashes) (ground (arith, h.0))

trim_right_slashes-append :
    (p : Text) (c : ℕ) (s : Text)
    → Lacks b'/' (c ∷ s)
    → trim_right_slashes (p ++ c ∷ s) ≡ p ++ c ∷ s
unfolding trim_right_slashes
trim_right_slashes-append [] c s h = trim_right_slashes-Lacks (c ∷ s) h
trim_right_slashes-append (d ∷ p) c s h =
    rw (trim_right_slashes-append p c s h, is_nil_append p c s, trim_right_slashes) refl

-- The path of a queue's URL, without the slashes at its ends.
trim_slashes_path :
    (name : Text)
    → name ≢ []
    → Lacks b'/' name
    → trim_slashes (b'/' ∷ (placeholder_acct ++ b'/' ∷ name)) ≡ placeholder_acct ++ b'/' ∷ name
unfolding trim_slashes trim_left_slashes
trim_slashes_path [] ne h = absurd (ne refl)
trim_slashes_path (c ∷ s) ne h = trim_right_slashes-append (placeholder_acct ++ codes "/") c s h

last_of_path :
    (name : Text)
    → Lacks b'/' name
    → last_segment (split (placeholder_acct ++ b'/' ∷ name) b'/') ≡ name
unfolding last_segment has_byte
last_of_path name h =
    rw
      (
        split-append b'/' placeholder_acct name (has_byte-Lacks b'/' placeholder_acct refl),
        split-Lacks b'/' name h,
      )
      refl

-- The URL that CreateQueue and GetQueueUrl answer for a valid queue name is read as that name, where
-- url.Parse gives the path of a URL without special bytes as it is.
pub json_queue_name_from_url-make_queue_url :
    (env : Env) (base name : Text)
    → IsUrls env base
    → is_valid_queue_name name ≡ true
    → json_queue_name_from_url env (make_queue_url base name) ≡ some name
unfolding json_queue_name_from_url make_queue_url
json_queue_name_from_url-make_queue_url env base name urls valid =
    let (filled, bytes) = valid_parts name valid in
    let whole = name-Lacks b'/' name slash_no_name bytes in
    rw
      (
        path_escape_name name bytes,
        urls.path_read name bytes,
        trim_slashes_path name filled whole,
        last_of_path name whole,
        unescaped_name name bytes,
        valid,
      )
      refl
