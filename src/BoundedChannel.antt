-- ===== src/BoundedChannel.antt =====
-- crates/pjs-core/src/infrastructure/bounded_channel.rs: the channel that bounds the bytes in its queue. The
-- semaphore and the queue are tokio's: they are instances of two interfaces whose laws are what tokio
-- documents. The permit of an envelope is the number of permits that its drop gives back.
pub mod Budget
mod Tests
use pjs.Prelude.{
  ℕ, ◌+◌, ◌-◌, ◌≤◌, ◌^◌, ◌≡◌, max, min, Option, none, some, List, [], ◌∷◌, ◌++◌, Bool, true, ltb,
  if◌then◌else◌, is_some,
}
use pjs.Prelude.Result.{Result, ok, err}

-- `tokio::sync::Semaphore`, which nothing closes here.
pub record Semaphore (S : Type 0) : Type 0 where
  pub with_permits : ℕ → S
  pub available : S → ℕ
  pub try_acquire_many : ℕ → S → Option S
  pub release : ℕ → S → S
  pub available-with_permits : (n : ℕ) → available (with_permits n) ≡ n
  pub available-try_acquire_many :
      (n : ℕ) (s t : S) → try_acquire_many n s ≡ some t → available s ≡ available t + n
  pub try_acquire_many-enough :
      (n : ℕ) (s : S) → n ≤ available s → is_some (try_acquire_many n s) ≡ true
  pub available-release : (n : ℕ) (s : S) → available (release n s) ≡ available s + n

pub record Envelope (V : Type 0) : Type 0 where
  pub value : V
  pub permit : ℕ

-- Why `mpsc` refuses.
pub data Refusal : Type 0 where
  full closed : Refusal

-- `tokio::sync::mpsc` for envelopes.
pub record Mpsc (V Q : Type 0) : Type 0 where
  pub with_capacity : ℕ → Q
  pub queued : Q → List (Envelope V)
  pub try_send_inner : Envelope V → Q → Result Refusal Q
  pub recv : Q → Option (Envelope V × Q)
  pub queued-with_capacity : (n : ℕ) → queued (with_capacity n) ≡ []
  pub queued-try_send_inner :
      (e : Envelope V) (q r : Q) → try_send_inner e q ≡ ok r → queued r ≡ queued q ++ e ∷ []
  pub queued-recv : (e : Envelope V) (q r : Q) → recv q ≡ some (e, r) → queued q ≡ e ∷ queued r

pub data TrySendError (V : Type 0) : Type 0 where
  budget_exceeded : V → TrySendError V
  channel : Refusal → V → TrySendError V

pub record ByteBoundedSender (S Q : Type 0) : Type 0 where
  pub inner : Q
  pub budget : S
  pub max_queued_bytes : ℕ

abbrev pub permits_for : ℕ → ℕ
permits_for payload_len = min (max payload_len 1) (2 ^ 32 - 1)

module _ {V S Q : Type 0} (sem : Semaphore S) (mpsc : Mpsc V Q) where
  abbrev pub byte_bounded_channel : ℕ → ℕ → ByteBoundedSender S Q
  byte_bounded_channel item_capacity max_queued_bytes = record {
    inner = mpsc.with_capacity item_capacity;
    budget = sem.with_permits max_queued_bytes;
    max_queued_bytes = max_queued_bytes;
  }

  -- The queue takes the envelope, or gives it back and its permit is dropped.
  abbrev pub enqueued :
      ByteBoundedSender S Q
      → Envelope V
      → S
      → Result Refusal Q
      → ByteBoundedSender S Q × Result (TrySendError V) (Unit {0})
  enqueued s e left (ok q) = (record s { inner = q; budget = left }, ok tt)
  enqueued s e left (err why) =
      (record s { budget = sem.release e.permit left }, err (channel why e.value))

  abbrev pub permitted :
      ByteBoundedSender S Q
      → Envelope V
      → Option S
      → ByteBoundedSender S Q × Result (TrySendError V) (Unit {0})
  permitted s e none = (s, err (budget_exceeded e.value))
  permitted s e (some left) = enqueued s e left (mpsc.try_send_inner e s.inner)

  unfoldable pub try_send :
      ByteBoundedSender S Q → V → ℕ → ByteBoundedSender S Q × Result (TrySendError V) (Unit {0})
  try_send s value payload_len =
      if ltb s.max_queued_bytes (max payload_len 1)
      then (s, err (budget_exceeded value))
      else let n = permits_for payload_len in
        permitted s (record { value = value; permit = n }) (sem.try_acquire_many n s.budget)

  -- `into_inner`, or the drop of what `split` detached: the permit goes back.
  abbrev pub drop_permit : ByteBoundedSender S Q → ℕ → ByteBoundedSender S Q
  drop_permit s n = record s { budget = sem.release n s.budget }
