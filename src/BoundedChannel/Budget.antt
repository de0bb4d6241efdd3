-- ===== src/BoundedChannel/Budget.antt =====
-- The permits of a channel in every sequence of sends, receipts and drops.
use pjs.Prelude.{
  ℕ, ◌+◌, ◌≤◌, ◌<◌, ◌^◌, ◌≡◌, ◌≢◌, refl, arith, max, some, List, [], ◌∷◌, ◌++◌, false, ltb, All,
  All-append, All-parts, Bool-cases, Option-cases, inl, inr, not-ltb→le, le→not-ltb,
}
use pjs.Prelude.Result.{Result, ok, err, Result-cases}
use pjs.BoundedChannel.{
  Semaphore, Envelope, Mpsc, Refusal, budget_exceeded, ByteBoundedSender, permits_for,
  byte_bounded_channel, enqueued, try_send, drop_permit,
}

module _ {V : Type 0} where
  abbrev pub permits : List (Envelope V) → ℕ
  permits [] = 0
  permits (e ∷ es) = e.permit + permits es

  abbrev pub bytes_in : (V → ℕ) → List (Envelope V) → ℕ
  bytes_in size [] = 0
  bytes_in size (e ∷ es) = size e.value + bytes_in size es

  permits-append : (xs ys : List (Envelope V)) → permits (xs ++ ys) ≡ permits xs + permits ys
  permits-append [] ys = omega arith
  permits-append (x ∷ xs) ys = omega (arith, permits-append xs ys)

  bytes_in-le-permits :
      (size : V → ℕ) (es : List (Envelope V))
      → All (λ e. size e.value ≤ e.permit) es
      → bytes_in size es ≤ permits es
  bytes_in-le-permits size [] h = omega arith
  bytes_in-le-permits size (e ∷ es) h = omega (arith, h.0, bytes_in-le-permits size es h.1)

module _ {V S Q : Type 0} (sem : Semaphore S) (mpsc : Mpsc V Q) (size : V → ℕ) where
  -- A value is sent with its size; what is received is held until it is dropped.
  pub data Run (items limit : ℕ) : ByteBoundedSender S Q → List (Envelope V) → Type 0 where
    opened : Run items limit (byte_bounded_channel sem mpsc items limit) []
    sends :
        {s : ByteBoundedSender S Q} {held : List (Envelope V)} (v : V)
        → Run items limit s held
        → Run items limit (try_send sem mpsc s v (size v)).0 held
    receives :
        {s : ByteBoundedSender S Q} {held : List (Envelope V)} (e : Envelope V) (q : Q)
        → Run items limit s held
        → mpsc.recv s.inner ≡ some (e, q)
        → Run items limit (record s { inner = q }) (e ∷ held)
    drops :
        {s : ByteBoundedSender S Q} (before : List (Envelope V)) (e : Envelope V)
        (after : List (Envelope V))
        → Run items limit s (before ++ e ∷ after)
        → Run items limit (drop_permit sem mpsc s e.permit) (before ++ after)

  -- Each permit is free, in the queue or held, and each value is covered by its permit.
  pub record IsBalanced (limit : ℕ) (s : ByteBoundedSender S Q) (held : List (Envelope V))
      : Type 0 where
    pub limited : s.max_queued_bytes ≡ limit
    pub balance : sem.available s.budget + permits (mpsc.queued s.inner) + permits held ≡ limit
    pub queue_covered : All (λ e. size e.value ≤ e.permit) (mpsc.queued s.inner)
    pub held_covered : All (λ e. size e.value ≤ e.permit) held

  enqueued-IsBalanced :
      (limit : ℕ) (s : ByteBoundedSender S Q) (held : List (Envelope V)) (e : Envelope V) (left : S)
      (answer : Result Refusal Q)
      → IsBalanced limit s held
      → size e.value ≤ e.permit
      → sem.available s.budget ≡ sem.available left + e.permit
      → mpsc.try_send_inner e s.inner ≡ answer
      → IsBalanced limit (enqueued sem mpsc s e left answer).0 held
  enqueued-IsBalanced limit s held e left (ok q) b covered taken sent =
      let grown = mpsc.queued-try_send_inner e s.inner q sent in
      record {
        limited = b.limited;
        balance =
            rw grown
              (omega (arith, b.balance, taken, permits-append (mpsc.queued s.inner) (e ∷ [])));
        queue_covered = rw grown (
            All-append (λ x. size x.value ≤ x.permit) (mpsc.queued s.inner) (e ∷ []) b.queue_covered
              (covered, tt));
        held_covered = b.held_covered;
      }
  enqueued-IsBalanced limit s held e left (err why) b covered taken sent = record {
    limited = b.limited;
    balance = omega (arith, b.balance, taken, sem.available-release e.permit left);
    queue_covered = b.queue_covered;
    held_covered = b.held_covered;
  }

  try_send-IsBalanced :
      (limit : ℕ) (s : ByteBoundedSender S Q) (held : List (Envelope V)) (v : V)
      → limit < 2 ^ 32
      → IsBalanced limit s held
      → IsBalanced limit (try_send sem mpsc s v (size v)).0 held
  unfolding try_send
  try_send-IsBalanced limit s held v word b =
      elim (Bool-cases (ltb s.max_queued_bytes (max (size v) 1))) [
        | inl large ↦ rw large b
        | inr fits ↦
            let n = permits_for (size v) in
            let e : Envelope V = record { value = v; permit = n } in
            elim (Option-cases (sem.try_acquire_many n s.budget)) [
              | inl short ↦ rw (fits, short) b
              | inr (left, taken) ↦
                  let room = not-ltb→le s.max_queued_bytes (max (size v) 1) fits in
                  rw (fits, taken)
                    (enqueued-IsBalanced limit s held e left (mpsc.try_send_inner e s.inner) b
                      (omega (arith, room, b.limited, word))
                      (sem.available-try_acquire_many n s.budget left taken) refl)
            ]
      ]

  Run-IsBalanced :
      (items limit : ℕ) {s : ByteBoundedSender S Q} {held : List (Envelope V)}
      → limit < 2 ^ 32
      → Run items limit s held
      → IsBalanced limit s held
  Run-IsBalanced items limit word opened =
      let none_queued = mpsc.queued-with_capacity items in
      record {
        limited = refl;
        balance = rw none_queued (omega (arith, sem.available-with_permits limit));
        queue_covered = rw none_queued tt;
        held_covered = tt;
      }
  Run-IsBalanced items limit word (sends v r) =
      try_send-IsBalanced limit _ _ v word (Run-IsBalanced items limit word r)
  Run-IsBalanced items limit word (receives {s = s} e q r got) =
      let b = Run-IsBalanced items limit word r in
      let front = mpsc.queued-recv e s.inner q got in
      let covered = rw front at b.queue_covered in
      record {
        limited = b.limited;
        balance = omega (arith, rw front at b.balance);
        queue_covered = covered.1;
        held_covered = (covered.0, b.held_covered);
      }
  Run-IsBalanced items limit word (drops {s = s} before e after r) =
      let b = Run-IsBalanced items limit word r in
      let (front, rest) =
        All-parts (λ x. size x.value ≤ x.permit) before (e ∷ after) b.held_covered in
      record {
        limited = b.limited;
        balance = omega (
          arith,
          b.balance,
          sem.available-release e.permit s.budget,
          permits-append before (e ∷ after),
          permits-append before after,
        );
        queue_covered = b.queue_covered;
        held_covered = All-append (λ x. size x.value ≤ x.permit) before after front rest.1;
      }

-- However sends, receipts and drops follow each other on a channel, the values that are queued or held
-- together have no more bytes than the channel was made with, if that is within `u32`.
pub Run-bytes_in :
    {V S Q : Type 0} (sem : Semaphore S) (mpsc : Mpsc V Q) (size : V → ℕ) (items limit : ℕ)
    (s : ByteBoundedSender S Q) (held : List (Envelope V))
    → limit < 2 ^ 32
    → Run sem mpsc size items limit s held
    → bytes_in size (mpsc.queued s.inner) + bytes_in size held ≤ limit
Run-bytes_in sem mpsc size items limit s held word r =
    let b = Run-IsBalanced sem mpsc size items limit word r in
    omega (
      arith,
      b.balance,
      bytes_in-le-permits size (mpsc.queued s.inner) b.queue_covered,
      bytes_in-le-permits size held b.held_covered,
    )

-- No permit is lost: once all that was sent has been received and dropped, a value that is no larger than the
-- channel was made with, and the channel for at least one byte, within `u32`, is not refused for the budget.
pub try_send-recovers :
    {V S Q : Type 0} (sem : Semaphore S) (mpsc : Mpsc V Q) (size : V → ℕ) (items limit : ℕ)
    (s : ByteBoundedSender S Q) (v : V)
    → limit < 2 ^ 32
    → Run sem mpsc size items limit s []
    → mpsc.queued s.inner ≡ []
    → max (size v) 1 ≤ limit
    → (try_send sem mpsc s v (size v)).1 ≢ err (budget_exceeded v)
unfolding try_send
try_send-recovers sem mpsc size items limit s v word r empty fits refused =
    let b = Run-IsBalanced sem mpsc size items limit word r in
    let n = permits_for (size v) in
    let free : sem.available s.budget ≡ limit = omega (arith, rw empty at b.balance) in
    let small : ltb s.max_queued_bytes (max (size v) 1) ≡ false =
      le→not-ltb s.max_queued_bytes (max (size v) 1) (omega (arith, b.limited, fits)) in
    elim (Option-cases (sem.try_acquire_many n s.budget)) [
      | inl short ↦
          absurd (cc (sem.try_acquire_many-enough n s.budget (omega (arith, free, fits)), short))
      | inr (left, taken) ↦
          let e : Envelope _ = record { value = v; permit = n } in
          elim (Result-cases (mpsc.try_send_inner e s.inner)) [
            | inl (q, sent) ↦ cc (rw (small, taken, sent) at refused)
            | inr (why, sent) ↦ cc (rw (small, taken, sent) at refused)
          ]
    ]
