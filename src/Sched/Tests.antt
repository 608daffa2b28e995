-- ===== src/Sched/Tests.antt =====
-- sched/wrr.rs on the backends of its unit test and its README example.
use rxh.Prelude.{
  ℕ, ◌<◌, ◌≤◌, ◌*◌, ◌≡◌, refl, Bool, true, false, ◌&&◌, ◌==◌, none, some, List, [], ◌∷◌, arith, ◌⊎◌,
}
use native.Mathlib.Decide.{ℕ_discrete}
use rxh.Sched
use rxh.Sched.{next_wrr, Backend, Scheduler, WeightedRoundRobin, wrr, weighted_round_robin, make}
use rxh.Sched.Expand.{total_weight, IsFresh, make_cases}
use rxh.Sched.Expand.{expand}
use rxh.Sched.Rotation.{rotations, Implements, make_rotates}
use rxh.Ring
use rxh.Ring.{next_index}
use rxh.Ring.Threads.{Reach, start, fetch, read}
use rxh.Sched.Threads.{tasks_share}
use rxh.Sched.Fairness.{next_servers, count, weight_of, first_cycle, fair_share}

-- Addresses 1, 2 and 3 for ports 8080, 8081 and 8082.
abbrev backends : List (Backend ℕ)
backends =
    record { address = 1; weight = 1 }
    ∷ record { address = 2; weight = 3 }
    ∷ record { address = 3; weight = 2 }
    ∷ []

abbrev scheduler : Scheduler ℕ
scheduler =
    weighted_round_robin
      (record { cycle = record { values = 1 ∷ 2 ∷ 2 ∷ 2 ∷ 3 ∷ 3 ∷ []; next = 0 } })

-- The unit test `weighted_round_robin`: what it expects, and its run.
abbrev expected : List ℕ
expected = 1 ∷ 2 ∷ 2 ∷ 2 ∷ 3 ∷ 3 ∷ []

abbrev all_served : List ℕ → WeightedRoundRobin ℕ → Bool
all_served [] w = true
all_served (server ∷ expected) w = elim (next_wrr w) [
  | none ↦ false
  | some (to, w') ↦ (to == server) && all_served expected w'
]

abbrev unit_test : Bool
unit_test = elim (Sched.new backends) [ none ↦ false | some w ↦ all_served expected w ]

unit_test_passes : unit_test ≡ true
unfolding Sched.new next_wrr Ring.next_as_owned Ring.next_as_ref next_index
unit_test_passes = refl

weighted_test : make wrr backends ≡ some scheduler
unfolding make
weighted_test = refl

weightless : List (Backend ℕ)
weightless = record { address = 1; weight = 0 } ∷ []

weightless_test : make wrr weightless ≡ none
unfolding make weightless
weightless_test = refl

backends_make :
    ((total_weight backends ≡ 0) × (make wrr backends ≡ none))
    ⊎ ((s : Scheduler ℕ) × (make wrr backends ≡ some s)
        × IsFresh backends s
        × (0 < total_weight backends))
backends_make = make_cases backends

one_cycle : (s' : Scheduler ℕ) × (next_servers 6 scheduler ≡ some (1 ∷ 2 ∷ 2 ∷ 2 ∷ 3 ∷ 3 ∷ [], s'))
one_cycle = first_cycle backends scheduler weighted_test (omega arith)

fair_share_example :
    (before out : List ℕ) × (s' s'' : Scheduler ℕ) × (next_servers 4 scheduler ≡ some (before, s'))
    × (next_servers 6 s' ≡ some (out, s''))
    × ((a : ℕ) → count ℕ_discrete a out ≡ weight_of ℕ_discrete a backends)
fair_share_example = fair_share ℕ_discrete backends scheduler 4 weighted_test (omega arith)

make_rotates_example :
    (out : List ℕ) × (s' : Scheduler ℕ) × (q : List ℕ) × (next_servers 8 scheduler ≡ some (out, s'))
    × (rotations 8 (expand backends) ≡ some (out, q))
    × Implements 0 q s'
make_rotates_example = make_rotates backends scheduler 8 weighted_test (omega arith)

abbrev pair : List (Backend ℕ)
pair = record { address = 1; weight = 1 } ∷ record { address = 2; weight = 1 } ∷ []

abbrev turn : WeightedRoundRobin ℕ
turn = record { cycle = record { values = 1 ∷ 2 ∷ []; next = 0 } }

pair_test : make wrr pair ≡ some (weighted_round_robin turn)
unfolding make
pair_test = refl

-- Three tasks: the second is served first.
three_tasks :
    Reach turn.cycle 3
      (record { ring = record turn.cycle { next = 3 }; pending = []; served = 1 ∷ 1 ∷ 2 ∷ [] })
unfolding next_index
three_tasks =
    let two = read [] (0 ∷ []) 1 2 (fetch 1 _ (fetch 0 _ start refl) refl) refl refl in
    read [] [] 0 1 (read [] (0 ∷ []) 0 1 (fetch 0 _ two refl) refl refl) refl refl

tasks_share_example :
    (1 * weight_of ℕ_discrete 1 pair ≤ count ℕ_discrete 1 (1 ∷ 1 ∷ 2 ∷ []))
    × (count ℕ_discrete 1 (1 ∷ 1 ∷ 2 ∷ []) ≤ 2 * weight_of ℕ_discrete 1 pair)
tasks_share_example =
    tasks_share ℕ_discrete pair 1 turn 3 1 _ pair_test three_tasks refl (omega arith) (omega arith)
      (omega arith)
