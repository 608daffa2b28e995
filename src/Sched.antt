-- ===== src/Sched.antt =====
-- src/sched/mod.rs and src/sched/wrr.rs, with `Backend` and `Algorithm` of src/config/mod.rs.
-- `Addr` stands for `std::net::SocketAddr`. A panic is `none`.
pub mod Expand
pub mod Fairness
pub mod Ready
pub mod Rotation
pub mod Threads
pub mod Turns
pub mod Picks
mod Tests
use mathlib.Core.Option
use rxh.Prelude.{ℕ, zero, suc, Option, List, [], ◌∷◌, ◌++◌}
use rxh.Ring
use rxh.Ring.{Ring}

pub record Backend (Addr : Type 0) : Type 0 where
  pub address : Addr
  pub weight : ℕ

pub data Algorithm : Type 0 where
  wrr : Algorithm

pub record WeightedRoundRobin (Addr : Type 0) : Type 0 where
  pub cycle : Ring Addr

-- `Box<dyn Scheduler>`: one constructor for each implementation of the trait.
pub data Scheduler (Addr : Type 0) : Type 0 where
  weighted_round_robin : WeightedRoundRobin Addr → Scheduler Addr

module _ {Addr : Type 0} where
  -- `while weight > 0 { cycle.push(address); weight -= 1; }`
  unfoldable pub push_weight : List Addr → Addr → ℕ → List Addr
  push_weight cycle address zero = cycle
  push_weight cycle address (suc weight) = push_weight (cycle ++ address ∷ []) address weight

  -- `for backend in backends`
  unfoldable pub push_backends : List Addr → List (Backend Addr) → List Addr
  unfolding push_weight
  push_backends cycle [] = cycle
  push_backends cycle (b ∷ backends) = push_backends (push_weight cycle b.address b.weight) backends

  unfoldable pub new : List (Backend Addr) → Option (WeightedRoundRobin Addr)
  unfolding push_backends Ring.new
  new backends = Option.map (λ ring. record { cycle = ring }) (Ring.new (push_backends [] backends))

  -- `WeightedRoundRobin::next_server`
  unfoldable pub next_wrr : WeightedRoundRobin Addr → Option (Addr × WeightedRoundRobin Addr)
  next_wrr s = Option.map (λ p. (p.0, record { cycle = p.1 })) (Ring.next_as_owned s.cycle)

  -- `Scheduler::next_server`, dispatched on the implementation
  unfoldable pub next_server : Scheduler Addr → Option (Addr × Scheduler Addr)
  unfolding next_wrr
  next_server (weighted_round_robin s) =
      Option.map (λ p. (p.0, weighted_round_robin p.1)) (next_wrr s)

  unfoldable pub make : Algorithm → List (Backend Addr) → Option (Scheduler Addr)
  unfolding new
  make wrr backends = Option.map weighted_round_robin (new backends)
