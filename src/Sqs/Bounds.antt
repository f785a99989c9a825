-- ===== src/Sqs/Bounds.antt =====
-- How many messages a receive of internal/sqs/store.go hands out.
use twister_aws.Base.{
  ℕ, suc, ◌≤◌, Text, ◌≡◌, refl, Bool, true, false, Option, List, [], ◌∷◌, length, take, arith, inl,
  inr, Bool-cases, if◌then◌else◌, ltb, is_nil, length-take,
}
use twister_aws.Base.Int.{ℤ}
use twister_aws.Sqs.{
  Result-cases, StoredMsg, Manager, ok, queue_path, read_file, clamp, is_peek, hand_out, Received,
  receive_some, receive_message,
}
use twister_aws.Sqs.Queues.{clamp_bounds}

length-hand_out :
    (md5 : Text → Text) (handles : ℕ → Text) (i : ℕ) (ms : List StoredMsg)
    → length (hand_out md5 handles i ms) ≡ length ms
unfolding hand_out
length-hand_out md5 handles i [] = refl
length-hand_out md5 handles i (sm ∷ ms) = omega (arith, length-hand_out md5 handles (suc i) ms)

taken_few :
    (md5 : Text → Text) (handles : ℕ → Text) (n : ℕ) (ms : List StoredMsg) (r : Received)
    → r.out ≡ hand_out md5 handles 0 (take (if ltb (length ms) n then length ms else n) ms)
    → length r.out ≤ n
taken_few md5 handles n ms r out =
    let k = if ltb (length ms) n then length ms else n in
    rw (out, length-hand_out md5 handles 0 (take k ms), length-take k ms) (ground arith)

receive_some_few :
    (md5 : Text → Text) (handles : ℕ → Text) (written hook peek : Bool) (p : Text) (n : ℕ)
    (ms : List StoredMsg) (m : Manager) (r : Received)
    → receive_some md5 handles written hook peek p n ms m ≡ ok r
    → length r.out ≤ n
unfolding receive_some
receive_some_few md5 handles written hook true p n ms m r h =
    let k = if ltb (length ms) n then length ms else n in
    let out : r.out ≡ hand_out md5 handles 0 (take k ms) = ground arith in
    taken_few md5 handles n ms r out
receive_some_few md5 handles written hook false p n ms m r h =
    let k = if ltb (length ms) n then length ms else n in
    let out : r.out ≡ hand_out md5 handles 0 (take k ms) = ground arith in
    taken_few md5 handles n ms r out

-- No receive hands out more than ten messages.
pub receive_message_few :
    (md5 : Text → Text) (handles : ℕ → Text) (written hook : Bool) (region name : Text) (n : ℤ)
    (timeout : Option ℤ) (m : Manager) (r : Received)
    → receive_message md5 handles written hook region name n timeout m ≡ ok r
    → length r.out ≤ 10
unfolding receive_message
receive_message_few md5 handles written hook region name n timeout m r h =
    elim (Result-cases (queue_path region name m)) [
      | inr (e, path) ↦ absurd (ground (arith, path))
      | inl (p, path) ↦ elim (Result-cases (read_file p m)) [
        | inr (e, read) ↦ absurd (ground (arith, path, read))
        | inl (ms, read) ↦ elim (Bool-cases (is_nil ms)) [
          | inl e ↦ ground (arith, path, read, e)
          | inr e ↦
              let some_of : receive_some md5 handles written hook (is_peek timeout) p (clamp n) ms m
                  ≡ ok r =
                ground (arith, path, read, e) in
              omega (
                arith,
                receive_some_few md5 handles written hook (is_peek timeout) p (clamp n) ms m r
                    some_of,
                (clamp_bounds n).1,
              )
        ]
      ]
    ]
