-- ===== src/Sqs.antt =====
-- SQS queues on disk: internal/sqs/store.go and names.go. The files are those below Root, by their
-- path from there; a file system that fails is an argument of the operations that write.
pub mod Paths
pub mod Fifo
pub mod Queues
pub mod Listed
pub mod Bounds
pub mod Requests
use twister_aws.Base.Json.{json_text}
use twister_aws.Base.{
  ℕ, zero, suc, ◌-◌, ◌≡◌, refl, ◌⊎◌, inl, inr, Text, Map, codes, Bool, true, false, not, ◌&&◌, ◌||◌,
  Option, none, some, List, [], ◌∷◌, ◌++◌, map, ◌==◌, lookup, insert, keys, leb, ltb, eqb, length,
  take, drop, is_nil, min, if◌then◌else◌,
}
pub use twister_aws.Base.Results.{ok, err, ◌>>=◌, Result-cases, result_lem}
use twister_aws.Base.Results
use twister_aws.Base.Int.{ℤ, pos, negsuc}
use twister_aws.Base.Sort.{sort}
use twister_aws.Base.Strings.{has_prefix, has_suffix, hex_encode, cut_byte}
use twister_aws.Region.{normalize_region, is_valid_region_segment}

-- [a-zA-Z0-9_-]
unfoldable pub is_queue_byte : ℕ → Bool
is_queue_byte c =
    (leb b'a' c && leb c b'z')
    || ((leb b'A' c && leb c b'Z') || ((leb b'0' c && leb c b'9') || (eqb c b'_' || eqb c b'-')))

unfoldable pub all_queue_bytes : Text → Bool
unfolding is_queue_byte
all_queue_bytes [] = true
all_queue_bytes (c ∷ s) = is_queue_byte c && all_queue_bytes s

-- ^[a-zA-Z0-9_-]{1,80}$
unfoldable pub is_valid_queue_name : Text → Bool
unfolding all_queue_bytes
is_valid_queue_name s = not (is_nil s) && (leb (length s) 80 && all_queue_bytes s)

pub record StoredMsg : Type 0 where
  pub id : Text
  pub body : Text

pub record Message : Type 0 where
  pub message_id : Text
  pub body : Text
  pub receipt_handle : Text
  pub md5_of_body : Text

-- What a queue file decodes to; an empty file decodes to no messages.
pub data QueueFile : Type 0 where
  messages : List StoredMsg → QueueFile
  garbage : QueueFile

pub data Error : Type 0 where
  invalid_region invalid_queue_name empty_root queue_not_found not_decoded disk : Error

abbrev pub Result {ℓ} : Type ℓ → Type ℓ
Result = Results.Result Error

-- Manager, with the files below its root.
pub record Manager : Type 0 where
  pub root : Text
  pub files : Map QueueFile

abbrev pub file_of : Text → Text → Text
file_of region name = region ++ b'/' ∷ (name ++ codes ".json")

unfoldable pub queue_path : Text → Text → Manager → Result Text
queue_path region name m =
    let r = normalize_region region in
    if not (is_valid_region_segment r)
    then err invalid_region
    else if not (is_valid_queue_name name)
    then err invalid_queue_name
    else if m.root == []
    then err empty_root
    else ok (file_of r name)

-- The two writers: the file is replaced, or nothing changes. The messages of a file are those that json.Unmarshal gives back for
-- it, so that a message is written as it will be read; what was read from a file before is kept as it is.
unfoldable pub write_file : Bool → Text → List StoredMsg → Manager → Result Manager
write_file written p ms m =
    if written then ok (record m { files = insert p (messages ms) m.files }) else err disk

unfoldable pub read_file : Text → Manager → Result (List StoredMsg)
read_file p m = elim (lookup p m.files) [
  | none ↦ err queue_not_found
  | some garbage ↦ err not_decoded
  | some (messages ms) ↦ ok ms
]

-- os.Stat on a path that must be there
unfoldable pub stat : Text → Manager → Result (Unit {0})
stat p m = elim (lookup p m.files) [ none ↦ err queue_not_found | some f ↦ ok tt ]

unfoldable pub create_queue : Bool → Text → Text → Manager → Result Manager
create_queue written region name m = do
  p ← queue_path region name m
  elim (lookup p m.files) [ some f ↦ ok m | none ↦ write_file written p [] m ]

-- The result is the message id and the digest; `id` is the random id. The digest is that of the body as it was sent, and the
-- file has what JSON keeps of it.
unfoldable pub send_message :
    (md5 : Text → Text)
    → Bool
    → Text
    → Text
    → Text
    → Text
    → Manager
    → Result (Text × Text × Manager)
send_message md5 written id region name body m = do
  p ← queue_path region name m
  ms ← read_file p m
  m' ← write_file written p (ms ++ record { id = id; body = json_text body } ∷ []) m
  ok (id, hex_encode (md5 body), m')

-- n raised to 1, then lowered to 10
unfoldable pub clamp : ℤ → ℕ
clamp (negsuc n) = 1
clamp (pos n) = if ltb n 1 then 1 else if ltb 10 n then 10 else n

unfoldable pub is_peek : Option ℤ → Bool
is_peek none = false
is_peek (some (pos n)) = eqb n 0
is_peek (some (negsuc n)) = false

-- The messages handed out, the i-th with the i-th random handle.
unfoldable pub hand_out : (md5 : Text → Text) → (ℕ → Text) → ℕ → List StoredMsg → List Message
hand_out md5 handles i [] = []
hand_out md5 handles i (sm ∷ ms) =
    record {
      message_id = sm.id;
      body = sm.body;
      receipt_handle = handles i;
      md5_of_body = hex_encode (md5 sm.body);
    }
    ∷ hand_out md5 handles (suc i) ms

-- The messages, the manager after it, and those that DequeueHook is called with, if it is called.
pub record Received : Type 0 where
  pub out : List Message
  pub manager : Manager
  pub hooked : Option (List Message)

unfoldable pub receive_some :
    (md5 : Text → Text)
    → (ℕ → Text)
    → Bool
    → Bool
    → Bool
    → Text
    → ℕ
    → List StoredMsg
    → Manager
    → Result Received
receive_some md5 handles written hook peek p n ms m =
    let k = if ltb (length ms) n then length ms else n in
    let out = hand_out md5 handles 0 (take k ms) in
    if peek then ok (record { out = out; manager = m; hooked = none }) else do
      m' ← write_file written p (drop k ms) m
      ok (record {
        out = out;
        manager = m';
        hooked = if hook && ltb 0 (length out) then some out else none;
      })

-- `hook` tells whether DequeueHook is set.
unfoldable pub receive_message :
    (md5 : Text → Text)
    → (ℕ → Text)
    → Bool
    → Bool
    → Text
    → Text
    → ℤ
    → Option ℤ
    → Manager
    → Result Received
receive_message md5 handles written hook region name n timeout m = do
  p ← queue_path region name m
  ms ← read_file p m
  if is_nil ms
      then ok (record { out = []; manager = m; hooked = none })
      else receive_some md5 handles written hook (is_peek timeout) p (clamp n) ms m

unfoldable pub purge_queue : Bool → Text → Text → Manager → Result Manager
purge_queue written region name m = do
  p ← queue_path region name m
  _ ← stat p m
  write_file written p [] m

-- The queue has to be there; nothing is removed.
unfoldable pub delete_message : Text → Text → Manager → Result (Unit {0})
delete_message region name m = do p ← queue_path region name m; stat p m

unfoldable pub queue_has : Text → Text → Manager → Result Bool
queue_has region name m = do
  p ← queue_path region name m
  elim (lookup p m.files) [ none ↦ ok false | some f ↦ ok true ]

-- The entries of the directory of a region, in the order of the keys.
unfoldable pub entries_of : Text → List Text → List Text
entries_of region [] = []
entries_of region (p ∷ ps) =
    let rest = entries_of region ps in
    elim (cut_byte b'/' p) [ none ↦ rest | some q ↦ if q.0 == region then q.1 ∷ rest else rest ]

-- The loop of ListQueues.
unfoldable pub queue_names : Text → List Text → List Text
queue_names prefix [] = []
queue_names prefix (entry ∷ es) =
    let rest = queue_names prefix es in
    let qn = take (length entry - 5) entry in
    if not (has_suffix entry (codes ".json"))
    then rest
    else if not (is_valid_queue_name qn)
    then rest
    else if not (prefix == []) && not (has_prefix qn prefix)
    then rest
    else qn ∷ rest

-- os.ReadDir sorts the entries.
unfoldable pub list_queues : Text → Text → Manager → Result (List Text)
unfolding entries_of queue_names
list_queues region prefix m =
    let r = normalize_region region in
    if not (is_valid_region_segment r)
    then err invalid_region
    else if m.root == []
    then err empty_root
    else ok (queue_names prefix (sort (entries_of r (keys m.files))))
