-- ===== src/Tokio/Counters.antt =====
-- Instances of the interfaces that keep just the counts: the laws can be met together.
use rxh.Prelude.{
  ℕ, zero, suc, ◌+◌, ◌-◌, ◌<◌, ◌≡◌, refl, Option, none, some, arith, if◌then◌else◌, ◌==◌,
}
use rxh.Tokio.{Semaphore, Broadcast, Mpsc, Received, got, closed, waiting}

abbrev take_permit : ℕ → Option ℕ
take_permit zero = none
take_permit (suc n) = some n

pub take_permit-none : (n : ℕ) → n ≡ 0 → take_permit n ≡ none
take_permit-none n h = ground arith

pub take_permit-some : (n : ℕ) → 0 < n → (m : ℕ) × (take_permit n ≡ some m)
take_permit-some (suc n) h = (n, refl)
take_permit-some zero h = absurd (omega arith)

pub take_permit_takes : (n m : ℕ) → take_permit n ≡ some m → n ≡ m + 1
take_permit_takes n m h = ground arith

abbrev pub counting_semaphore : Semaphore
counting_semaphore = record {
  Sem = ℕ;
  sem = λ n. n;
  available = λ n. n;
  acquire = take_permit;
  release = λ n. n + 1;
  available-sem = λ n. refl;
  acquire-none = take_permit-none;
  acquire-some = take_permit-some;
  acquire_takes = take_permit_takes;
  release_gives = λ n. refl;
}

-- A bus that holds its receivers' number, and the last message, which every receiver reads.
abbrev Board : Type 0 → Type 0
Board Message = ℕ × Option Message

module _ {Message : Type 0} where
  abbrev post : Message → Board Message → Option ℕ × Board Message
  post m (n, last) = (if n == 0 then none else some n, (n, if n == 0 then last else some m))

  pub post-none : (m : Message) (b : Board Message) → b.0 ≡ 0 → (post m b).0 ≡ none
  post-none m b h = rw h refl

  pub post-some : (m : Message) (b : Board Message) → 0 < b.0 → (post m b).0 ≡ some b.0
  post-some m (zero, last) h = absurd (omega arith)
  post-some m (suc n, last) h = ground arith

abbrev pub counting_broadcast : (Message : Type 0) → Broadcast Message
counting_broadcast Message = record {
  Bus = Board Message;
  Receiver = Unit;
  bus = (0, none);
  receivers = λ b. b.0;
  subscribe = λ b. (tt, (b.0 + 1, b.1));
  drop_receiver = λ r b. (b.0 - 1, b.1);
  send = post;
  try_recv = λ r b. (b.1, b);
  receivers-bus = refl;
  receivers-subscribe = λ b. refl;
  receivers-drop = λ r b. refl;
  receivers-send = λ m b. refl;
  receivers-try_recv = λ r b. refl;
  send-none = post-none;
  send-some = post-some;
}

abbrev Queue : Type 0
Queue = ℕ × ℕ

abbrev offer_one : Queue → Option Queue
offer_one (s, zero) = some (s, 1)
offer_one (s, suc q) = none

abbrev take_one : Queue → Received Queue
take_one (s, suc q) = got (s, q)
take_one (zero, zero) = closed
take_one (suc s, zero) = waiting

pub offer_one-some : (c : Queue) → c.1 ≡ 0 → (c' : Queue) × (offer_one c ≡ some c')
offer_one-some (s, zero) h = ((s, 1), refl)
offer_one-some (s, suc q) h = absurd (omega arith)

pub offer_one_counts : (c c' : Queue) → offer_one c ≡ some c' → (c'.0 ≡ c.0) × (c'.1 ≡ c.1 + 1)
offer_one_counts (s, zero) c' h = ground arith
offer_one_counts (s, suc q) c' h = cc

pub take_one-got : (c : Queue) → 0 < c.1 → (c' : Queue) × (take_one c ≡ got c')
take_one-got (s, zero) h = absurd (omega arith)
take_one-got (s, suc q) h = ((s, q), refl)

pub take_one_counts : (c c' : Queue) → take_one c ≡ got c' → (c'.0 ≡ c.0) × (c.1 ≡ c'.1 + 1)
take_one_counts (s, suc q) c' h = ground arith
take_one_counts (zero, zero) c' h = cc
take_one_counts (suc s, zero) c' h = cc

pub take_one-closed : (c : Queue) → c.1 ≡ 0 → c.0 ≡ 0 → take_one c ≡ closed
take_one-closed (zero, zero) h k = refl
take_one-closed (suc s, zero) h k = absurd (omega arith)
take_one-closed (s, suc q) h k = absurd (omega arith)

pub closed_one_counts : (c : Queue) → take_one c ≡ closed → (c.0 ≡ 0) × (c.1 ≡ 0)
closed_one_counts (zero, zero) h = (refl, refl)
closed_one_counts (suc s, zero) h = cc
closed_one_counts (s, suc q) h = cc

abbrev pub counting_mpsc : Mpsc
counting_mpsc = record {
  Chan = Queue;
  chan = (1, 0);
  senders = λ c. c.0;
  queued = λ c. c.1;
  clone_sender = λ c. (c.0 + 1, c.1);
  drop_sender = λ c. (c.0 - 1, c.1);
  offer = offer_one;
  recv = take_one;
  chan-empty = (refl, refl);
  clone_counts = λ c. (refl, refl);
  drop_counts = λ c. (refl, refl);
  offer-some = offer_one-some;
  offer_counts = offer_one_counts;
  recv-got = take_one-got;
  got_counts = take_one_counts;
  recv-closed = take_one-closed;
  closed_counts = closed_one_counts;
}
