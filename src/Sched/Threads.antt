-- ===== src/Sched/Threads.antt =====
-- sched/wrr.rs: the tasks of a server share its scheduler. A request of a task is a call of the ring
-- behind the scheduler, whose two parts come apart as in Ring/Threads.
use rxh.Prelude.{ℕ, suc, ◌*◌, ◌≤◌, ◌≡◌, sym, ap, subst, ◌∙◌, some, List, [], arith, inl}
use rxh.Ring.{Ring, usize_mod}
use rxh.Ring.Bounds.{IsValid}
use rxh.Ring.Cycle.{round}
use rxh.Ring.Threads.{Calls, Reach, threads_share_round}
use rxh.Sched.{Backend, wrr, WeightedRoundRobin, weighted_round_robin, Scheduler, make}
use rxh.Sched.Expand.{total_weight, make-IsFresh}
use rxh.Sched.Picks.{picks, picks_between}
use rxh.Sched.Fairness.{count, weight_of, count-perm}

abbrev pub ring_of : {Addr : Type 0} → Scheduler Addr → Ring Addr
ring_of (weighted_round_robin w) = w.cycle

module _ {Addr : Type 0} (dec : Discrete Addr) (backends : List (Backend Addr)) (a : Addr) where
  -- However the requests of several tasks on a scheduler that the factory made interleave: when n of
  -- them have come, at most 2^64, and none of them is pending, an address has been chosen at least as
  -- often as its weight for each whole cycle in n, and at most once more its weight.
  pub tasks_share :
      (w : WeightedRoundRobin Addr) (n cycles : ℕ) (s : Calls Addr)
      → make wrr backends ≡ some (weighted_round_robin w)
      → Reach w.cycle n s
      → s.pending ≡ []
      → n ≤ usize_mod
      → cycles * total_weight backends ≤ n
      → n ≤ suc cycles * total_weight backends
      → (cycles * weight_of dec a backends ≤ count dec a s.served)
        × (count dec a s.served ≤ suc cycles * weight_of dec a backends)
  tasks_share w n cycles s made h rest small low high =
      let f = make-IsFresh backends made in
      let here = ap ring_of f.wraps in
      let valid : IsValid w.cycle = subst IsValid (sym here) f.valid in
      let start : w.cycle.next ≡ 0 = ap (λ r. r.next) here ∙ f.at_start in
      let served : count dec a s.served ≡ picks dec backends a 0 n =
        count-perm dec a (threads_share_round valid h (inl (omega (arith, start, small))) rest)
        ∙ ap (λ (k : ℕ). count dec a (round w.cycle.values k n)) start
        ∙ ap (λ vs. count dec a (round vs 0 n)) (ap (λ r. r.values) here ∙ f.cycle) in
      rw served (picks_between dec backends a n cycles low high)
