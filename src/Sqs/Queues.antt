-- ===== src/Sqs/Queues.antt =====
-- The operations on a queue against the list of its messages: what each does to the queue that it
-- names, and that it leaves every other file alone.
use twister_aws.Base.{
  ℕ, zero, suc, ◌≤◌, Text, ◌≡◌, ◌≢◌, refl, ap, Bool, true, false, Option, some, List, [], ◌∷◌, ◌++◌,
  map, lookup, lookup-insert, eq_refl, eq_of_ne, length, take, drop, arith, inl, inr, Bool-cases,
  if◌then◌else◌, ltb,
}
use twister_aws.Base.Int.{ℤ, pos, negsuc}
use twister_aws.Base.Json.{json_text}
use twister_aws.Sqs.{
  StoredMsg, Message, messages, Manager, ok, queue_path, write_file, read_file, send_message, clamp,
  is_peek, hand_out, Received, receive_some, receive_message,
}

-- The contents of the messages: what the queue keeps of each, in the order of the list.
abbrev pub contents : List Message → List StoredMsg
contents = map (λ (m : Message). record { id = m.message_id; body = m.body })

contents-hand_out :
    (md5 : Text → Text) (handles : ℕ → Text) (i : ℕ) (ms : List StoredMsg)
    → contents (hand_out md5 handles i ms) ≡ ms
unfolding hand_out
contents-hand_out md5 handles i [] = refl
contents-hand_out md5 handles i (sm ∷ ms) = cc (contents-hand_out md5 handles (suc i) ms)

-- Every file but the one at `p` is as it was, and so is the root.
pub record SameElsewhere (p : Text) (m m' : Manager) : Type 0 where
  pub root : m'.root ≡ m.root
  pub files : (j : Text) → p ≢ j → lookup j m'.files ≡ lookup j m.files

pub write_file_lem :
    (p : Text) (ms : List StoredMsg) (m m' : Manager) (written : Bool)
    → write_file written p ms m ≡ ok m'
    → (lookup p m'.files ≡ some (messages ms)) × SameElsewhere p m m'
unfolding write_file
write_file_lem p ms m m' false h = cc
write_file_lem p ms m m' true h = (
  ground (arith, lookup-insert p p (messages ms) m.files, eq_refl p),
  record {
    root = ground arith;
    files = λ j ne. ground (arith, lookup-insert p j (messages ms) m.files, eq_of_ne p j ne);
  },
)

pub read_file_found :
    (p : Text) (ms : List StoredMsg) (m : Manager)
    → lookup p m.files ≡ some (messages ms)
    → read_file p m ≡ ok ms
unfolding read_file
read_file_found p ms m e = rw (e, read_file) refl

-- A message that is sent to a queue that is there, where the send succeeds, is appended to it, with the id
-- that is answered and its body as JSON keeps it, and no other file changes.
pub send_message_lem :
    (md5 : Text → Text) (written : Bool) (id region name body p : Text) (ms : List StoredMsg)
    (m m' : Manager) (a d : Text)
    → queue_path region name m ≡ ok p
    → lookup p m.files ≡ some (messages ms)
    → send_message md5 written id region name body m ≡ ok (a, d, m')
    → (a ≡ id)
      × (lookup p m'.files ≡ some (messages (ms ++ record { id = id; body = json_text body } ∷ [])))
      × SameElsewhere p m m'
unfolding send_message
send_message_lem md5 written id region name body p ms m m' a d path old h =
    let ms' = ms ++ record { id = id; body = json_text body } ∷ [] in
    let wrote : write_file written p ms' m ≡ ok m' =
      ground (arith, path, read_file_found p ms m old, h) in
    let (now, others) = write_file_lem p ms' m m' written wrote in
    (ground (arith, path, read_file_found p ms m old, h), now, others)

-- Taking no more than there are takes the same.
take_clip :
    (n : ℕ) (ms : List StoredMsg) → take (if ltb (length ms) n then length ms else n) ms ≡ take n ms
take_clip n ms = elim (Bool-cases (ltb (length ms) n)) [
  | inl e ↦ rw e (take_all ms n (ground arith))
  | inr e ↦ rw e refl
]
  where
    take_all : (ks : List StoredMsg) (k : ℕ) → length ks ≤ k → take (length ks) ks ≡ take k ks
    take_all [] zero h = refl
    take_all [] (suc k) h = refl
    take_all (x ∷ ks) zero h = absurd (omega arith)
    take_all (x ∷ ks) (suc k) h = ap (λ t. x ∷ t) (take_all ks k (omega arith))

drop_clip :
    (n : ℕ) (ms : List StoredMsg) → drop (if ltb (length ms) n then length ms else n) ms ≡ drop n ms
drop_clip n ms = elim (Bool-cases (ltb (length ms) n)) [
  | inl e ↦ rw e (drop_all ms n (ground arith))
  | inr e ↦ rw e refl
]
  where
    drop_all : (ks : List StoredMsg) (k : ℕ) → length ks ≤ k → drop (length ks) ks ≡ drop k ks
    drop_all [] zero h = refl
    drop_all [] (suc k) h = refl
    drop_all (x ∷ ks) zero h = absurd (omega arith)
    drop_all (x ∷ ks) (suc k) h = drop_all ks k (omega arith)

take-nil : (n : ℕ) → take {A = StoredMsg} n [] ≡ []
take-nil zero = refl
take-nil (suc n) = refl

drop-nil : (n : ℕ) → drop {A = StoredMsg} n [] ≡ []
drop-nil zero = refl
drop-nil (suc n) = refl

-- The number of messages that is asked for comes to lie within 1 and 10, and stays if it lies there.
pub clamp_bounds : (n : ℤ) → (1 ≤ clamp n) × (clamp n ≤ 10)
unfolding clamp
clamp_bounds (pos n) = ground arith
clamp_bounds (negsuc n) = (omega arith, omega arith)

-- What a receive of `n` messages does to a queue that holds `ms`.
pub record IsReceived (peek : Bool) (p : Text) (n : ℕ) (ms : List StoredMsg) (m : Manager)
    (r : Received) : Type 0 where
  pub handed : contents r.out ≡ take n ms
  pub rest : lookup p r.manager.files ≡ some (messages (if peek then ms else drop n ms))
  pub others : SameElsewhere p m r.manager

module _ (md5 : Text → Text) (handles : ℕ → Text) (written hook : Bool) where
  receive_some_lem :
      (peek : Bool) (p : Text) (n : ℕ) (ms : List StoredMsg) (m : Manager) (r : Received)
      → lookup p m.files ≡ some (messages ms)
      → receive_some md5 handles written hook peek p n ms m ≡ ok r
      → IsReceived peek p n ms m r
  unfolding receive_some
  receive_some_lem true p n ms m r old h =
      let k = if ltb (length ms) n then length ms else n in
      let out : r.out ≡ hand_out md5 handles 0 (take k ms) = ground arith in
      let same : r.manager ≡ m = ground arith in
      record {
        handed = rw (out, contents-hand_out md5 handles 0 (take k ms)) (take_clip n ms);
        rest = rw same old;
        others = rw same (record { root = refl; files = λ j ne. refl });
      }
  receive_some_lem false p n ms m r old h =
      let k = if ltb (length ms) n then length ms else n in
      let out : r.out ≡ hand_out md5 handles 0 (take k ms) = ground arith in
      let wrote : write_file written p (drop k ms) m ≡ ok r.manager = ground arith in
      let (now, others) = write_file_lem p (drop k ms) m r.manager written wrote in
      record {
        handed = rw (out, contents-hand_out md5 handles 0 (take k ms)) (take_clip n ms);
        rest = rw now (ap (λ t. some (messages t)) (drop_clip n ms));
        others = others;
      }

-- A receive that succeeds, on a queue that is there, hands out the first messages of the queue in order, as many as are asked
-- for within 1 and 10 or all there are, takes exactly those off the queue unless it peeks, and
-- leaves every other file as it was.
pub receive_message_lem :
    (md5 : Text → Text) (handles : ℕ → Text) (written hook : Bool) (region name p : Text) (n : ℤ)
    (timeout : Option ℤ) (ms : List StoredMsg) (m : Manager) (r : Received)
    → queue_path region name m ≡ ok p
    → lookup p m.files ≡ some (messages ms)
    → receive_message md5 handles written hook region name n timeout m ≡ ok r
    → IsReceived (is_peek timeout) p (clamp n) ms m r
unfolding receive_message
receive_message_lem md5 handles written hook region name p n timeout [] m r path old h =
    let out : r.out ≡ [] = ground (arith, path, read_file_found p [] m old, h) in
    let same : r.manager ≡ m = ground (arith, path, read_file_found p [] m old, h) in
    record {
      handed = rw (out, take-nil (clamp n)) refl;
      rest = rw (same, old, drop-nil (clamp n)) (ground arith);
      others = rw same (record { root = refl; files = λ j ne. refl });
    }
receive_message_lem md5 handles written hook region name p n timeout (sm ∷ ms) m r path old h =
    receive_some_lem md5 handles written hook (is_peek timeout) p (clamp n) (sm ∷ ms) m r old
      (ground (arith, path, read_file_found p (sm ∷ ms) m old, h))
