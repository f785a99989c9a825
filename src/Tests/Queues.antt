-- ===== src/Tests/Queues.antt =====
-- Runs on queues.
use twister_aws.Base.{
  ℕ, Text, codes, ◌≡◌, ◌↔◌, refl, true, false, none, some, List, [], ◌∷◌, ◌++◌, ◌==◌, lookup,
  insert,
}
use twister_aws.Base.Strings.{hex_encode, to_lower, trim_space}
use twister_aws.Base.Int.{pos}
use twister_aws.Region.{normalize_region, is_valid_region_segment}
use twister_aws.Base.Json.{json_text}
use twister_aws.Sqs.{
  StoredMsg, messages, QueueFile, Manager, ok, queue_path, send_message, receive_message, Received,
  is_valid_queue_name, write_file, read_file, hand_out, receive_some, clamp, is_peek, create_queue,
}
use twister_aws.Sqs.Queues.{contents, IsReceived, receive_message_lem}
use twister_aws.Sqs.Fifo.{Run, here, sent, received, run_fifo}
use twister_aws.Base.Sort.{elem, sort}
use twister_aws.Base.Strings.{has_prefix, has_suffix, cut_byte}
use twister_aws.Sqs.{queue_has, list_queues}
use twister_aws.Sqs.Listed.{list_queues_iff}
use twister_aws.Sqs.Paths.{queue_path_iff}
use twister_aws.Tests.Data.{md5, us, eu}

abbrev jobs : Text
jobs = codes "jobs"

abbrev jobs_file : Text
jobs_file = codes "us-east-1/jobs.json"

abbrev first : StoredMsg
first = record { id = codes "1"; body = codes "a" }

abbrev second : StoredMsg
second = record { id = codes "2"; body = json_text (codes "b") }

abbrev holding : List StoredMsg → Manager
holding ms = record { root = codes "sqs"; files = (jobs_file, messages ms) ∷ [] }

abbrev handles : ℕ → Text
handles i = b'h' ∷ i ∷ []

abbrev nothing : Manager
nothing = record { root = codes "sqs"; files = [] }

path_of :
    (files : List (Text × QueueFile))
    → queue_path us jobs (record { root = codes "sqs"; files = files }) ≡ ok jobs_file
unfolding queue_path normalize_region to_lower trim_space is_valid_region_segment
    is_valid_queue_name ◌==◌
path_of files = refl

there : (ms : List StoredMsg) → lookup jobs_file (holding ms).files ≡ some (messages ms)
unfolding lookup ◌==◌
there ms = refl

sends :
    send_message md5 true (codes "2") us jobs (codes "b") (holding (first ∷ []))
    ≡ ok (codes "2", hex_encode (md5 (codes "b")), holding (first ∷ second ∷ []))
unfolding send_message queue_path normalize_region to_lower trim_space is_valid_region_segment
    is_valid_queue_name ◌==◌ read_file write_file lookup insert
sends = refl

abbrev handed : Received
handed = record {
  out = hand_out md5 handles 0 (first ∷ []);
  manager = holding (second ∷ []);
  hooked = some (hand_out md5 handles 0 (first ∷ []));
}

receives :
    receive_message md5 handles true true us jobs (pos 1) none (holding (first ∷ second ∷ []))
    ≡ ok handed
unfolding receive_message queue_path normalize_region to_lower trim_space is_valid_region_segment
    is_valid_queue_name ◌==◌ read_file write_file lookup insert receive_some clamp is_peek hand_out
receives = refl

peek_no : is_peek none ≡ false
unfolding is_peek
peek_no = refl

abbrev a_run :
    Run md5 us jobs jobs_file
      (holding (first ∷ []))
      (holding (second ∷ []))
      (second ∷ [])
      (contents handed.out)
a_run =
    received handles true true (pos 1) none handed
      (sent true (codes "2") (codes "b") (codes "2") (hex_encode (md5 (codes "b"))) here (path_of _)
        sends)
      (path_of _) peek_no receives

run_fifo_example :
    (left : List StoredMsg) × (lookup jobs_file (holding (second ∷ [])).files
      ≡ some (messages left))
    × (contents handed.out ++ left ≡ first ∷ second ∷ [])
run_fifo_example = run_fifo md5 us jobs jobs_file (first ∷ []) (there (first ∷ [])) a_run

receive_message_lem_example :
    IsReceived
      (is_peek none)
      jobs_file
      (clamp (pos 1))
      (first ∷ second ∷ [])
      (holding (first ∷ second ∷ []))
      handed
receive_message_lem_example =
    receive_message_lem md5 handles true true us jobs jobs_file (pos 1) none (first ∷ second ∷ [])
      (holding (first ∷ second ∷ [])) handed (path_of _) (there _) receives

creates : create_queue true us jobs nothing ≡ ok (holding [])
unfolding create_queue queue_path normalize_region to_lower trim_space is_valid_region_segment
    is_valid_queue_name ◌==◌ write_file lookup insert
creates = refl

absent : lookup jobs_file nothing.files ≡ none
unfolding lookup
absent = refl

path_of_eu : queue_path eu jobs nothing ≡ ok (codes "eu-west-1/jobs.json")
unfolding queue_path normalize_region to_lower trim_space is_valid_region_segment
    is_valid_queue_name ◌==◌
path_of_eu = refl

queue_path_iff_example :
    (jobs_file ≡ codes "eu-west-1/jobs.json")
    ↔ ((normalize_region us ≡ normalize_region eu) × (jobs ≡ jobs))
queue_path_iff_example =
    queue_path_iff us eu jobs jobs jobs_file (codes "eu-west-1/jobs.json") nothing nothing
      (path_of _) path_of_eu

lists : list_queues us [] (holding []) ≡ ok (jobs ∷ [])
unfolding list_queues normalize_region to_lower trim_space is_valid_region_segment
    is_valid_queue_name ◌==◌ has_prefix cut_byte has_suffix sort
lists = refl

list_queues_iff_example :
    (elem jobs (jobs ∷ []) ≡ true)
    ↔ ((queue_has us jobs (holding []) ≡ ok true) × (has_prefix jobs [] ≡ true))
list_queues_iff_example = list_queues_iff us [] jobs (holding []) (jobs ∷ []) lists

-- What JSON keeps of a text: two characters, and a byte that is none.
keeps_characters : json_text (226 ∷ 130 ∷ 172 ∷ 97 ∷ []) ≡ 226 ∷ 130 ∷ 172 ∷ 97 ∷ []
unfolding json_text
keeps_characters = refl

replaces_bytes : json_text (97 ∷ 255 ∷ []) ≡ 97 ∷ 239 ∷ 191 ∷ 189 ∷ []
unfolding json_text
replaces_bytes = refl
