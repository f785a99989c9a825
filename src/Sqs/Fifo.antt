-- ===== src/Sqs/Fifo.antt =====
-- Runs of sends and receives on one queue, between operations on other files, against a queue in
-- the order of arrival.
use twister_aws.Base.{
  ℕ, Text, ◌≡◌, ◌≢◌, refl, sym, ◌∙◌, Bool, true, false, Option, some, List, [], ◌∷◌, ◌++◌, lookup,
  take, drop, take-append-drop, append_assoc, append-nil,
}
use twister_aws.Base.Int.{ℤ}
use twister_aws.Base.Json.{json_text}
use twister_aws.Sqs.{
  StoredMsg, messages, Manager, ok, queue_path, send_message, Received, receive_message, clamp,
  is_peek,
}
use twister_aws.Sqs.Queues.{contents, SameElsewhere, send_message_lem, receive_message_lem}

module _ (md5 : Text → Text) (region name p : Text) where
  -- From the first manager to the second, these messages were sent to the queue and those were
  -- handed out for good, both in order. A step elsewhere leaves the file of the queue alone.
  pub data Run : Manager → Manager → List StoredMsg → List StoredMsg → Type 0 where
    here : {m : Manager} → Run m m [] []
    sent :
        {m m₁ m₂ : Manager} {ss ds : List StoredMsg} (written : Bool) (id body a d : Text)
        → Run m m₁ ss ds
        → queue_path region name m₁ ≡ ok p
        → send_message md5 written id region name body m₁ ≡ ok (a, d, m₂)
        → Run m m₂ (ss ++ record { id = id; body = json_text body } ∷ []) ds
    received :
        {m m₁ : Manager} {ss ds : List StoredMsg} (handles : ℕ → Text) (written hook : Bool) (n : ℤ)
        (timeout : Option ℤ) (r : Received)
        → Run m m₁ ss ds
        → queue_path region name m₁ ≡ ok p
        → is_peek timeout ≡ false
        → receive_message md5 handles written hook region name n timeout m₁ ≡ ok r
        → Run m r.manager ss (ds ++ contents r.out)
    peeked :
        {m m₁ : Manager} {ss ds : List StoredMsg} (handles : ℕ → Text) (written hook : Bool) (n : ℤ)
        (timeout : Option ℤ) (r : Received)
        → Run m m₁ ss ds
        → queue_path region name m₁ ≡ ok p
        → is_peek timeout ≡ true
        → receive_message md5 handles written hook region name n timeout m₁ ≡ ok r
        → Run m r.manager ss ds
    elsewhere :
        {m m₁ m₂ : Manager} {ss ds : List StoredMsg} (p' : Text)
        → Run m m₁ ss ds
        → p' ≢ p
        → SameElsewhere p' m₁ m₂
        → Run m m₂ ss ds

  -- In every run on a queue that holds `ms`, the messages handed out and then those left in the
  -- queue are `ms` and then the messages sent: first in, first out, nothing lost or handed out
  -- twice, whatever happens to other files in between. A run has the sends and receives that succeed.
  -- A message sent has its body as JSON keeps it: what is no UTF-8 in it is U+FFFD.
  pub run_fifo :
      {m m' : Manager} {ss ds : List StoredMsg} (ms : List StoredMsg)
      → lookup p m.files ≡ some (messages ms)
      → Run m m' ss ds
      → (left : List StoredMsg) × (lookup p m'.files ≡ some (messages left))
        × (ds ++ left ≡ ms ++ ss)
  run_fifo ms h here = (ms, h, sym (append-nil ms))
  run_fifo ms h (sent {m₁ = m₁} {m₂ = m₂} {ss = ss} {ds = ds} written id body a d run path e) =
      let (left, now, balance) = run_fifo ms h run in
      let new : List StoredMsg = record { id = id; body = json_text body } ∷ [] in
      (
        left ++ new,
        (send_message_lem md5 written id region name body p left m₁ m₂ a d path now e).1,
        cc (append_assoc ds left new, append_assoc ms ss new, balance),
      )
  run_fifo ms h
        (received {m₁ = m₁} {ss = ss} {ds = ds} handles written hook n timeout r run path peek e) =
      let (left, now, balance) = run_fifo ms h run in
      let step =
        receive_message_lem md5 handles written hook region name p n timeout left m₁ r path now e in
      let k = clamp n in
      (
        drop k left,
        step.rest ∙ (rw peek refl),
        cc (
          step.handed,
          append_assoc ds (take k left) (drop k left),
          take-append-drop k left,
          balance,
        ),
      )
  run_fifo ms h (peeked {m₁ = m₁} handles written hook n timeout r run path peek e) =
      let (left, now, balance) = run_fifo ms h run in
      let step =
        receive_message_lem md5 handles written hook region name p n timeout left m₁ r path now e in
      (left, step.rest ∙ (rw peek refl), balance)
  run_fifo ms h (elsewhere p' run ne same) =
      let (left, now, balance) = run_fifo ms h run in (left, same.files p ne ∙ now, balance)
