-- ===== src/Tokio.antt =====
-- What src/ uses of the tokio crate, as interfaces: operations on the state of a channel or a semaphore,
-- with the documented behaviour that the program relies on as laws.
pub mod Counters
use rxh.Prelude.{ℕ, ◌+◌, ◌-◌, ◌^◌, ◌≡◌, Option, none, some, ◌<◌, ◌≤◌, arith, ltb, if◌then◌else◌}

-- `Semaphore::MAX_PERMITS`, that is `usize::MAX >> 3`, where `usize` has 64 bits.
abbrev pub max_permits : ℕ
max_permits = 2 ^ 61 - 1

-- The check of `Semaphore::new`, which panics above it.
abbrev pub check_limit : ℕ → Option (Unit {0})
check_limit permits = if ltb max_permits permits then none else some tt

pub check_limit-some : {n : ℕ} {u : Unit {0}} → check_limit n ≡ some u → n ≤ max_permits
check_limit-some h = ground arith

pub check_limit-none : (n : ℕ) → max_permits < n → check_limit n ≡ none
check_limit-none n h = ground arith

pub check_limit_passes : (n : ℕ) → n ≤ max_permits → check_limit n ≡ some tt
check_limit_passes n h = ground arith

-- `tokio::sync::Semaphore`.
pub record Semaphore : Type 1 where
  pub Sem : Type 0
  -- `Semaphore::new(permits)`, behind `check_limit`: no semaphore is made that it refuses.
  pub sem : ℕ → Sem
  -- `available_permits`
  pub available : Sem → ℕ
  -- A poll of `acquire_owned`: `none` while there is no permit.
  pub acquire : Sem → Option Sem
  -- A permit is dropped.
  pub release : Sem → Sem
  pub available-sem : (n : ℕ) → available (sem n) ≡ n
  pub acquire-none : (s : Sem) → available s ≡ 0 → acquire s ≡ none
  pub acquire-some : (s : Sem) → 0 < available s → (s' : Sem) × (acquire s ≡ some s')
  pub acquire_takes : (s s' : Sem) → acquire s ≡ some s' → available s ≡ available s' + 1
  pub release_gives : (s : Sem) → available (release s) ≡ available s + 1

-- `tokio::sync::broadcast`, a channel of capacity 1 whose first receiver has been dropped.
pub record Broadcast (Message : Type 0) : Type 1 where
  pub Bus : Type 0
  pub Receiver : Type 0
  pub bus : Bus
  -- `receiver_count`
  pub receivers : Bus → ℕ
  pub subscribe : Bus → Receiver × Bus
  pub drop_receiver : Receiver → Bus → Bus
  -- `send`: the number of receivers, `none` for the error that there are none
  pub send : Message → Bus → Option ℕ × Bus
  -- `try_recv().ok()`
  pub try_recv : Receiver → Bus → Option Message × Bus
  pub receivers-bus : receivers bus ≡ 0
  pub receivers-subscribe : (b : Bus) → receivers (subscribe b).1 ≡ receivers b + 1
  pub receivers-drop : (r : Receiver) (b : Bus) → receivers (drop_receiver r b) ≡ receivers b - 1
  pub receivers-send : (m : Message) (b : Bus) → receivers (send m b).1 ≡ receivers b
  pub receivers-try_recv : (r : Receiver) (b : Bus) → receivers (try_recv r b).1 ≡ receivers b
  pub send-none : (m : Message) (b : Bus) → receivers b ≡ 0 → (send m b).0 ≡ none
  pub send-some : (m : Message) (b : Bus) → 0 < receivers b → (send m b).0 ≡ some (receivers b)

-- What `Receiver::recv` of a channel answers: a message, the end, or nothing yet.
pub data Received (Chan : Type 0) : Type 0 where
  got : Chan → Received Chan
  closed waiting : Received Chan

-- `tokio::sync::mpsc`, a channel of capacity 1 for messages without content, its receiver alive.
pub record Mpsc : Type 1 where
  pub Chan : Type 0
  pub chan : Chan
  pub senders : Chan → ℕ
  pub queued : Chan → ℕ
  pub clone_sender : Chan → Chan
  pub drop_sender : Chan → Chan
  -- A poll of `send(())`: `none` while the buffer is full.
  pub offer : Chan → Option Chan
  -- A poll of `recv`.
  pub recv : Chan → Received Chan
  pub chan-empty : (senders chan ≡ 1) × (queued chan ≡ 0)
  pub clone_counts :
      (c : Chan) → (senders (clone_sender c) ≡ senders c + 1) × (queued (clone_sender c) ≡ queued c)
  pub drop_counts :
      (c : Chan) → (senders (drop_sender c) ≡ senders c - 1) × (queued (drop_sender c) ≡ queued c)
  pub offer-some : (c : Chan) → queued c ≡ 0 → (c' : Chan) × (offer c ≡ some c')
  pub offer_counts :
      (c c' : Chan) → offer c ≡ some c' → (senders c' ≡ senders c) × (queued c' ≡ queued c + 1)
  pub recv-got : (c : Chan) → 0 < queued c → (c' : Chan) × (recv c ≡ got c')
  pub got_counts :
      (c c' : Chan) → recv c ≡ got c' → (senders c' ≡ senders c) × (queued c ≡ queued c' + 1)
  pub recv-closed : (c : Chan) → queued c ≡ 0 → senders c ≡ 0 → recv c ≡ closed
  pub closed_counts : (c : Chan) → recv c ≡ closed → (senders c ≡ 0) × (queued c ≡ 0)
