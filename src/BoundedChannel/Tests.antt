-- ===== src/BoundedChannel/Tests.antt =====
-- A channel with a counter as its semaphore and a list as its queue.
use pjs.Prelude.{
  ℕ, ◌+◌, ◌-◌, ◌≤◌, ◌≡◌, ◌≢◌, refl, arith, Option, none, some, List, [], ◌∷◌, ◌++◌, true, leb,
  if◌then◌else◌, is_some,
}
use pjs.Prelude.Result.{ok, err}
use pjs.BoundedChannel.{
  Semaphore, Envelope, Mpsc, budget_exceeded, ByteBoundedSender, byte_bounded_channel, try_send,
  drop_permit,
}
use pjs.BoundedChannel.Budget.{
  Run, opened, sends, receives, drops, bytes_in, Run-bytes_in, try_send-recovers,
}

abbrev take_permits : ℕ → ℕ → Option ℕ
take_permits n s = if leb n s then some (s - n) else none

take_permits-some : (n s t : ℕ) → take_permits n s ≡ some t → s ≡ t + n
take_permits-some n s t e = ground arith

take_permits-enough : (n s : ℕ) → n ≤ s → is_some (take_permits n s) ≡ true
take_permits-enough n s h = ground arith

abbrev counter : Semaphore ℕ
counter = record {
  with_permits = λ n. n;
  available = λ s. s;
  try_acquire_many = take_permits;
  release = λ n s. s + n;
  available-with_permits = λ n. refl;
  available-try_acquire_many = take_permits-some;
  try_acquire_many-enough = take_permits-enough;
  available-release = λ n s. refl;
}

abbrev first_of : List (Envelope ℕ) → Option (Envelope ℕ × List (Envelope ℕ))
first_of [] = none
first_of (e ∷ q) = some (e, q)

first_of-some : (e : Envelope ℕ) (q r : List (Envelope ℕ)) → first_of q ≡ some (e, r) → q ≡ e ∷ r
first_of-some e [] r h = absurd (cc h)
first_of-some e (x ∷ q) r h = cc h

abbrev queue : Mpsc ℕ (List (Envelope ℕ))
queue = record {
  with_capacity = λ n. [];
  queued = λ q. q;
  try_send_inner = λ e q. ok (q ++ e ∷ []);
  recv = first_of;
  queued-with_capacity = λ n. refl;
  queued-try_send_inner = λ e q r h. cc h;
  queued-recv = first_of-some;
}

abbrev sent : ByteBoundedSender ℕ (List (Envelope ℕ))
sent = (try_send counter queue (byte_bounded_channel counter queue 4 10) 7 7).0

abbrev same_size : ℕ → ℕ
same_size n = n

abbrev one_sent : Run counter queue same_size 4 10 sent []
one_sent = sends 7 opened

abbrev letter : Envelope ℕ
letter = record { value = 7; permit = 7 }

abbrev returned : ByteBoundedSender ℕ (List (Envelope ℕ))
returned = drop_permit counter queue (record sent { inner = [] }) 7

second_refused : (try_send counter queue sent 4 4).1 ≡ err (budget_exceeded 4)
unfolding try_send
second_refused = refl

Run-bytes_in_example : bytes_in same_size sent.inner + 0 ≤ 10
Run-bytes_in_example = Run-bytes_in counter queue same_size 4 10 sent [] (omega arith) one_sent

try_send-recovers_example : (try_send counter queue returned 9 9).1 ≢ err (budget_exceeded 9)
unfolding try_send
try_send-recovers_example =
    try_send-recovers counter queue same_size 4 10 returned 9 (omega arith)
      (drops [] letter [] (receives letter [] one_sent refl)) refl (omega arith)
