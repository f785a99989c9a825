-- ===== src/Sqs/Requests/Urls.antt =====
-- The URLs of queues: makeQueueURL, parseQueueNameFromQueueURL and jsonQueueNameFromURL of
-- internal/sqs/handler.go and json.go, with url.PathEscape and url.PathUnescape.
pub mod RoundTrip
use mathlib.Core.Option
use twister_aws.Base.{
  ℕ, zero, suc, ◌+◌, ◌*◌, ◌/◌, ◌%◌, Text, codes, Bool, true, false, not, ◌&&◌, ◌||◌, Option, none,
  some, List, [], ◌∷◌, ◌++◌, ◌==◌, eqb, is_nil, if◌then◌else◌,
}
use twister_aws.Base.Options.{◌>>=◌}
use twister_aws.Base.Strings.{split, is_hex_digit, hex_value}
use twister_aws.Sigv4.Encoding.{is_unreserved, upper_hex}
use twister_aws.Sqs.{is_valid_queue_name}
use twister_aws.Sqs.Requests.{Env}

-- A byte that a segment of a path keeps.
unfoldable pub in_segment : ℕ → Bool
in_segment c =
    is_unreserved c
    || (eqb c b'$' || (eqb c b'&' || (eqb c b'+' || (eqb c b'=' || (eqb c b':' || eqb c b'@')))))

-- url.PathEscape
unfoldable pub path_escape : Text → Text
path_escape [] = []
path_escape (c ∷ s) =
    let rest = path_escape s in
    if in_segment c then c ∷ rest else b'%' ∷ upper_hex (c / 16) ∷ upper_hex (c % 16) ∷ rest

-- url.PathUnescape: a `%` without two hexadecimal digits is an error.
unfoldable pub path_unescape : Text → Option Text
path_unescape [] = some []
path_unescape (c ∷ []) = if eqb c b'%' then none else some (c ∷ [])
path_unescape (c ∷ d ∷ []) =
    let rest = path_unescape (d ∷ []) in if eqb c b'%' then none else Option.map (λ t. c ∷ t) rest
path_unescape (c ∷ d ∷ e ∷ s) =
    let after = path_unescape s in
    let next = path_unescape (d ∷ e ∷ s) in
    if eqb c b'%'
    then (if is_hex_digit d && is_hex_digit e
        then Option.map (λ t. (hex_value d * 16 + hex_value e) ∷ t) after
        else none)
    else Option.map (λ t. c ∷ t) next

abbrev pub placeholder_acct : Text
placeholder_acct = codes "000000000000"

unfoldable pub make_queue_url : Text → Text → Text
make_queue_url base queue_name = base ++ b'/' ∷ (placeholder_acct ++ b'/' ∷ path_escape queue_name)

-- strings.Trim(s, "/")
unfoldable pub trim_left_slashes : Text → Text
trim_left_slashes [] = []
trim_left_slashes (c ∷ s) = let rest = trim_left_slashes s in if eqb c b'/' then rest else c ∷ s

unfoldable pub trim_right_slashes : Text → Text
trim_right_slashes [] = []
trim_right_slashes (c ∷ s) =
    let rest = trim_right_slashes s in if is_nil rest && eqb c b'/' then [] else c ∷ rest

unfoldable pub trim_slashes : Text → Text
trim_slashes s = trim_right_slashes (trim_left_slashes s)

-- The last segment; a text always has one.
unfoldable pub last_segment : List Text → Text
last_segment [] = []
last_segment (p ∷ []) = p
last_segment (p ∷ q ∷ ps) = last_segment (q ∷ ps)

unfoldable pub parse_queue_name_from_queue_url : Env → Text → Option Text
parse_queue_name_from_queue_url env queue_url = do
  path ← env.url_path queue_url
  some (last_segment (split (trim_slashes path) b'/'))

-- The name behind the last slash, unescaped where that is possible.
unfoldable pub unescaped : Text → Text
unescaped name = elim (path_unescape name) [ none ↦ name | some t ↦ t ]

unfoldable pub json_queue_name_from_url : Env → Text → Option Text
json_queue_name_from_url env queue_url = do
  path ← env.url_path queue_url
  let name = unescaped (last_segment (split (trim_slashes path) b'/')) in
      if not (is_valid_queue_name name) then none else some name

-- requestBaseURL; `tls` tells whether r.TLS is set.
unfoldable pub request_base_url : (tls : Bool) → (forwarded_proto host : Text) → Text
request_base_url tls forwarded_proto host =
    let scheme = if tls then codes "https" else codes "http" in
    let proto =
      if (forwarded_proto == codes "https") || (forwarded_proto == codes "http")
      then forwarded_proto
      else scheme in
    proto ++ (codes "://" ++ host)
